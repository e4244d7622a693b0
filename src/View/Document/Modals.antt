-- ===== src/View/Document/Modals.antt =====
-- The two effects of frontend/src/components/ui/modal/index.tsx over the life of a modal.
pub mod Lifetime
pub mod Overlap
use guardian_os_ai.Base.{
  ℕ, ◌+◌, ◌<◌, ◌≤◌, ◌≡◌, refl, arith, All, Bool, true, false, String, List, [], ◌∷◌, ◌++◌, map, not,
  filter, append-nil, map-append, sym, ◌∙◌, ==_iff, if◌then◌else◌, ◌==◌, ◌||◌, str_eq, Bool-cases,
  inl, inr,
}
use guardian_os_ai.View.Document.{
  Listener, Document, add_listener, remove_listener, set_overflow, Props, same_bool, same_bool-eq,
  Scene, AreOlder, filter-AreOlder, filter-append,
}

-- The first effect, with the function object `i` for its `handleEscape`, and its cleanup.
unfoldable pub listen : ℕ → Props → Document → Document
unfolding add_listener
listen i p d =
    if p.is_open then add_listener (record { identity = i; on_close = p.on_close }) d else d

unfoldable pub unlisten : Listener → Document → Document
unfolding remove_listener
unlisten f d = remove_listener f.identity d

-- The second effect and its cleanup.
unfoldable pub lock : Props → Document → Document
unfolding set_overflow
lock p d = set_overflow (if p.is_open then "hidden" else "unset") d

unfoldable pub unlock : Document → Document
unfolding set_overflow
unlock d = set_overflow "unset" d

unfoldable pub mount : Props → Document → ℕ → Scene
unfolding listen lock
mount p d n = record {
  document = lock p (listen n p d);
  props = p;
  listener = record { identity = n; on_close = p.on_close };
  fresh = n + 1;
}

-- The dependencies of the effects: `[isOpen, onClose]` and `[isOpen]`.
abbrev pub lock_changes : Props → Props → Bool
lock_changes p q = not (same_bool p.is_open q.is_open)

abbrev pub listener_changes : Props → Props → Bool
listener_changes p q = lock_changes p q || not (p.on_close == q.on_close)

-- A render with new props: the cleanups of the effects that changed, and then these effects.
unfoldable pub render : Props → Scene → Scene
unfolding listen unlisten lock unlock
render p s =
    if lock_changes s.props p
    then record {
      document = lock p (listen s.fresh p (unlock (unlisten s.listener s.document)));
      props = p;
      listener = record { identity = s.fresh; on_close = p.on_close };
      fresh = s.fresh + 1;
    }
    else if listener_changes s.props p
    then record {
      document = listen s.fresh p (unlisten s.listener s.document);
      props = p;
      listener = record { identity = s.fresh; on_close = p.on_close };
      fresh = s.fresh + 1;
    }
    else record s { props = p }

unfoldable pub unmount : Scene → Document
unfolding unlisten unlock
unmount s = unlock (unlisten s.listener s.document)

-- What a key press calls, in the order of the listeners; each is a `handleEscape`.
unfoldable pub key_down : String → Document → List ℕ
key_down key d = if str_eq key "Escape" then map (λ f. f.on_close) d.listeners else []

-- A modal that was mounted with `p` and rendered with each of the list, the last one first.
unfoldable pub alive : Props → List Props → Document → ℕ → Scene
unfolding mount render
alive p [] d n = mount p d n
alive p (q ∷ qs) d n = render q (alive p qs d n)

-- The props of the last render.
abbrev pub latest : Props → List Props → Props
latest p [] = p
latest p (q ∷ qs) = q
