-- ===== src/Examples/Template.antt =====
-- A modal and a dropdown on a document with one listener.
use guardian_os_ai.Base.{◌≡◌, refl, arith, true, false, [], ◌∷◌, ◌++◌}
use guardian_os_ai.View.Document.{Document, Props}
use guardian_os_ai.View.Document.Modals
use guardian_os_ai.View.Document.Modals.{key_down, latest}
use guardian_os_ai.View.Document.Modals.Lifetime.{modal_lifetime, closes, overflow_at}
use guardian_os_ai.View.Document.Modals.Overlap.{second_unlocks}
use guardian_os_ai.View.Document.Dropdowns
use guardian_os_ai.View.Document.Dropdowns.{Press, handle_click_outside}
use guardian_os_ai.View.Document.Dropdowns.Lifetime.{dropdown_lifetime}

abbrev page : Document
page = record { listeners = record { identity = 3; on_close = 30 } ∷ []; overflow = "" }

abbrev closed : Props
closed = record { is_open = false; on_close = 7 }

abbrev opened : Props
opened = record { is_open = true; on_close = 7 }

abbrev with_new_callback : Props
with_new_callback = record { is_open = true; on_close = 8 }

-- Mounted closed, opened, and rendered with another callback.
modal_lifetime_example :
    let s = Modals.alive closed (with_new_callback ∷ opened ∷ []) page 4 in
    (key_down "Escape" s.document ≡ key_down "Escape" page ++ closes with_new_callback)
    × (s.document.overflow ≡ overflow_at true)
    × ((Modals.unmount s).listeners ≡ page.listeners)
    × ((Modals.unmount s).overflow ≡ "unset")
modal_lifetime_example =
    modal_lifetime closed (with_new_callback ∷ opened ∷ []) page 4 (omega arith, tt)

second_unlocks_example :
    let first = Modals.alive opened [] page 4 in
    let gone = Modals.unmount (Modals.alive closed (opened ∷ []) first.document first.fresh) in
    (first.document.overflow ≡ "hidden")
    × (gone.overflow ≡ "unset")
    × (key_down "Escape" gone ≡ key_down "Escape" page ++ 7 ∷ [])
second_unlocks_example = second_unlocks opened [] closed (opened ∷ []) page 4 (omega arith, tt) refl

abbrev outside : Press
outside = record { inside = false; on_toggle = false }

dropdown_lifetime_example :
    let s = Dropdowns.alive opened (with_new_callback ∷ []) page 4 in
    (s.document.listeners ≡ page.listeners ++ s.listener ∷ [])
    × (handle_click_outside s outside ≡ 8 ∷ [])
    × ((Dropdowns.unmount s).listeners ≡ page.listeners)
dropdown_lifetime_example =
    dropdown_lifetime opened (with_new_callback ∷ []) page 4 outside (omega arith, tt)
