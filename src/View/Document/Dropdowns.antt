-- ===== src/View/Document/Dropdowns.antt =====
-- The effect of frontend/src/components/ui/dropdown/Dropdown.tsx over the life of a dropdown. Its listener
-- stays on the document while it is closed; the reference to its element is then empty.
pub mod Lifetime
use guardian_os_ai.Base.{ℕ, ◌+◌, Bool, List, [], ◌∷◌, not, if◌then◌else◌, ◌==◌, ◌&&◌}
use guardian_os_ai.View.Document.{Listener, Document, add_listener, remove_listener, Props, Scene}

-- The effect, with the function object `i` for its `handleClickOutside`, and its cleanup.
unfoldable pub listen : ℕ → Props → Document → Document
unfolding add_listener
listen i p d = add_listener (record { identity = i; on_close = p.on_close }) d

unfoldable pub unlisten : Listener → Document → Document
unfolding remove_listener
unlisten f d = remove_listener f.identity d

unfoldable pub mount : Props → Document → ℕ → Scene
unfolding listen
mount p d n = record {
  document = listen n p d;
  props = p;
  listener = record { identity = n; on_close = p.on_close };
  fresh = n + 1;
}

-- A render with new props: the effect depends on `onClose` only.
unfoldable pub render : Props → Scene → Scene
unfolding listen unlisten
render p s = if s.props.on_close == p.on_close then record s { props = p } else record {
  document = listen s.fresh p (unlisten s.listener s.document);
  props = p;
  listener = record { identity = s.fresh; on_close = p.on_close };
  fresh = s.fresh + 1;
}

unfoldable pub unmount : Scene → Document
unfolding unlisten
unmount s = unlisten s.listener s.document

unfoldable pub alive : Props → List Props → Document → ℕ → Scene
unfolding mount render
alive p [] d n = mount p d n
alive p (q ∷ qs) d n = render q (alive p qs d n)

-- Where the mouse is pressed: in the element of the dropdown, and in an element with the class
-- "dropdown-toggle" or in one that stands in such an element.
pub record Press : Type 0 where
  pub inside : Bool
  pub on_toggle : Bool

-- What `handleClickOutside` calls.
unfoldable pub handle_click_outside : Scene → Press → List ℕ
handle_click_outside s press =
    if s.props.is_open && not press.inside && not press.on_toggle
    then s.listener.on_close ∷ []
    else []
