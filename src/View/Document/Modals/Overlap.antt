-- ===== src/View/Document/Modals/Overlap.antt =====
-- Two modals on one document.
use guardian_os_ai.Base.{
  ℕ, ◌<◌, ◌≤◌, ◌≡◌, refl, arith, true, List, [], ◌∷◌, ◌++◌, All-append, All-imp, ◌∙◌, Bool-cases,
  inl, inr,
}
use guardian_os_ai.View.Document.{Listener, Document, Props, AreOlder}
use guardian_os_ai.View.Document.Modals.{alive, unmount, key_down, latest}
use guardian_os_ai.View.Document.Modals.Lifetime.{owned, alive-IsTidy, modal_lifetime}

owned-AreOlder :
    (n : ℕ) (p : Props) (f : Listener) → f.identity < n → AreOlder n (owned p.is_open f)
owned-AreOlder n p f made = elim (Bool-cases p.is_open) [
  | inl is_open ↦ rw is_open (made, tt)
  | inr closed ↦ rw closed tt
]

-- The listeners of a document with a modal on it were all made before the next function object.
alive-AreOlder :
    (p : Props) (qs : List Props) (d : Document) (n : ℕ)
    → AreOlder n d.listeners
    → AreOlder (alive p qs d n).fresh (alive p qs d n).document.listeners
alive-AreOlder p qs d n old =
    let s = alive p qs d n in
    let h = alive-IsTidy p qs d n old in
    let later : n ≤ s.fresh = omega (arith, h.newer, h.made) in
    rw h.listeners (
      All-append (λ f. f.identity < s.fresh) d.listeners _
        (All-imp (λ f older. omega (arith, older, later)) d.listeners old)
        (owned-AreOlder s.fresh (latest p qs) s.listener h.made))

-- While a modal is open, a second one comes and goes: the overflow of the body was hidden before and is
-- unset then, though the first modal is still open and Escape still closes it; if each listener is a
-- function object of its own.
pub second_unlocks :
    (p : Props) (qs : List Props) (p' : Props) (qs' : List Props) (d : Document) (n : ℕ)
    → AreOlder n d.listeners
    → (latest p qs).is_open ≡ true
    → let first = alive p qs d n in
      let gone = unmount (alive p' qs' first.document first.fresh) in
      (first.document.overflow ≡ "hidden")
      × (gone.overflow ≡ "unset")
      × (key_down "Escape" gone ≡ key_down "Escape" d ++ (latest p qs).on_close ∷ [])
unfolding key_down
second_unlocks p qs p' qs' d n old is_open =
    let first = alive p qs d n in
    let h = modal_lifetime p qs d n old in
    let k = modal_lifetime p' qs' first.document first.fresh (alive-AreOlder p qs d n old) in
    (h.1 ∙ rw is_open refl, k.3, rw k.2 (h.0 ∙ rw is_open refl))
