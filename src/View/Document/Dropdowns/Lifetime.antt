-- ===== src/View/Document/Dropdowns/Lifetime.antt =====
-- What a dropdown listens to while it lives, and what it leaves when it is gone.
use guardian_os_ai.Base.{
  ℕ, ◌<◌, ◌≤◌, ◌≡◌, refl, arith, List, [], ◌∷◌, ◌++◌, not, append-nil, ==_iff, ◌==◌, ◌&&◌, ◌∙◌,
  if◌then◌else◌, Bool-cases, inl, inr,
}
use guardian_os_ai.View.Document.{
  Listener, Document, add_listener, remove_listener, Props, Scene, AreOlder, filter-AreOlder,
  filter-append,
}
use guardian_os_ai.View.Document.Modals.{latest}
use guardian_os_ai.View.Document.Dropdowns.{
  listen, unlisten, mount, render, unmount, alive, Press, handle_click_outside,
}

record IsTidy (others : List Listener) (n : ℕ) (p : Props) (s : Scene) : Type 0 where
  listeners : s.document.listeners ≡ others ++ s.listener ∷ []
  props : s.props ≡ p
  calls : s.listener.on_close ≡ p.on_close
  newer : n ≤ s.listener.identity
  made : s.listener.identity < s.fresh

unlisten-others :
    (others : List Listener) (n : ℕ) (f : Listener) (d : Document)
    → AreOlder n others
    → n ≤ f.identity
    → d.listeners ≡ others ++ f ∷ []
    → (unlisten f d).listeners ≡ others
unfolding unlisten remove_listener
unlisten-others others n f d old newer e =
    rw
      (
        e,
        filter-append (λ g. not (g.identity == f.identity)) others (f ∷ []),
        filter-AreOlder n f.identity others old newer,
        (==_iff f.identity f.identity).1 refl,
      )
      (append-nil others)

mount-IsTidy : (d : Document) (n : ℕ) (p : Props) → IsTidy d.listeners n p (mount p d n)
unfolding mount listen add_listener
mount-IsTidy d n p = record {
  listeners = refl;
  props = refl;
  calls = refl;
  newer = omega arith;
  made = omega arith;
}

render-IsTidy :
    (others : List Listener) (n : ℕ) (p q : Props) (s : Scene)
    → AreOlder n others
    → IsTidy others n p s
    → IsTidy others n q (render q s)
unfolding render listen add_listener
render-IsTidy others n p q s old h = rw h.props (elim (Bool-cases (p.on_close == q.on_close)) [
  | inl kept ↦ rw kept (record {
    listeners = h.listeners;
    props = refl;
    calls = h.calls ∙ (==_iff p.on_close q.on_close).0 kept;
    newer = h.newer;
    made = h.made;
  })
  | inr changed ↦ rw changed (record {
    listeners = rw (unlisten-others others n s.listener s.document old h.newer h.listeners) refl;
    props = refl;
    calls = refl;
    newer = omega (arith, h.newer, h.made);
    made = omega arith;
  })
])

alive-IsTidy :
    (p : Props) (qs : List Props) (d : Document) (n : ℕ)
    → AreOlder n d.listeners
    → IsTidy d.listeners n (latest p qs) (alive p qs d n)
unfolding alive
alive-IsTidy p [] d n old = mount-IsTidy d n p
alive-IsTidy p (q ∷ qs) d n old =
    render-IsTidy d.listeners n (latest p qs) q (alive p qs d n) old (alive-IsTidy p qs d n old)

-- However often a dropdown is rendered, and whatever its properties change to: while it is mounted, one
-- listener stands after those from before, and a press calls the `onClose` of the last render exactly if
-- the dropdown is open and the press is neither in it nor on a toggle; after it has gone, the listeners
-- are those from before; if each listener is a function object of its own.
pub dropdown_lifetime :
    (p : Props) (qs : List Props) (d : Document) (n : ℕ) (press : Press)
    → AreOlder n d.listeners
    → let s = alive p qs d n in
      let last = latest p qs in
      (s.document.listeners ≡ d.listeners ++ s.listener ∷ [])
      × (handle_click_outside s press ≡ (
          if last.is_open && not press.inside && not press.on_toggle
          then last.on_close ∷ []
          else []))
      × ((unmount s).listeners ≡ d.listeners)
unfolding unmount handle_click_outside
dropdown_lifetime p qs d n press old =
    let s = alive p qs d n in
    let h = alive-IsTidy p qs d n old in
    (
      h.listeners,
      rw (h.props, h.calls) refl,
      unlisten-others d.listeners n s.listener s.document old h.newer h.listeners,
    )
