-- ===== src/View/Document/Modals/Lifetime.antt =====
-- What a modal leaves on the document while it lives and when it is gone.
use guardian_os_ai.Base.{
  ℕ, ◌+◌, ◌<◌, ◌≤◌, ◌≡◌, refl, ap, arith, Bool, true, false, String, List, [], ◌∷◌, ◌++◌, map, not,
  append-nil, map-append, sym, ◌∙◌, ==_iff, if◌then◌else◌, ◌==◌, Bool-cases, inl, inr,
}
use guardian_os_ai.View.Document.{
  Listener, Document, add_listener, remove_listener, set_overflow, Props, same_bool, same_bool-eq,
  Scene, AreOlder, filter-AreOlder, filter-append,
}
use guardian_os_ai.View.Document.Modals.{
  listen, unlisten, lock, unlock, mount, render, unmount, key_down, alive, latest,
}

abbrev pub owned : Bool → Listener → List Listener
owned true f = f ∷ []
owned false f = []

abbrev pub overflow_at : Bool → String
overflow_at true = "hidden"
overflow_at false = "unset"

-- What holds of a modal with the props `p` on a document that had the listeners `others`, all made before
-- `n`.
pub record IsTidy (others : List Listener) (n : ℕ) (p : Props) (s : Scene) : Type 0 where
  pub listeners : s.document.listeners ≡ others ++ owned p.is_open s.listener
  pub overflow : s.document.overflow ≡ overflow_at p.is_open
  pub props : s.props ≡ p
  pub calls : s.listener.on_close ≡ p.on_close
  pub newer : n ≤ s.listener.identity
  pub made : s.listener.identity < s.fresh

-- The cleanup of the first effect takes away its own listener only.
unlisten-owned :
    (others : List Listener) (n : ℕ) (b : Bool) (f : Listener) (d : Document)
    → AreOlder n others
    → n ≤ f.identity
    → d.listeners ≡ others ++ owned b f
    → (unlisten f d).listeners ≡ others
unfolding unlisten remove_listener
unlisten-owned others n true f d old newer e =
    rw
      (
        e,
        filter-append (λ g. not (g.identity == f.identity)) others (f ∷ []),
        filter-AreOlder n f.identity others old newer,
        (==_iff f.identity f.identity).1 refl,
      )
      (append-nil others)
unlisten-owned others n false f d old newer e =
    rw (e, append-nil others) (filter-AreOlder n f.identity others old newer)

listen-owned :
    (i : ℕ) (p : Props) (d : Document)
    → (listen i p d).listeners
      ≡ d.listeners ++ owned p.is_open (record { identity = i; on_close = p.on_close })
unfolding listen add_listener
listen-owned i p d = elim (Bool-cases p.is_open) [
  | inl e ↦ rw e refl
  | inr e ↦ rw e (sym (append-nil d.listeners))
]

listen-overflow : (i : ℕ) (p : Props) (d : Document) → (listen i p d).overflow ≡ d.overflow
unfolding listen add_listener
listen-overflow i p d = ground arith

unlisten-overflow : (f : Listener) (d : Document) → (unlisten f d).overflow ≡ d.overflow
unfolding unlisten remove_listener
unlisten-overflow f d = refl

overflow-lock : (b : Bool) → (if b then "hidden" else "unset") ≡ overflow_at b
overflow-lock true = refl
overflow-lock false = refl

mount-IsTidy : (d : Document) (n : ℕ) (p : Props) → IsTidy d.listeners n p (mount p d n)
unfolding mount lock set_overflow
mount-IsTidy d n p = record {
  listeners = listen-owned n p d;
  overflow = overflow-lock p.is_open;
  props = refl;
  calls = refl;
  newer = omega arith;
  made = omega arith;
}

module _ (others : List Listener) (n : ℕ) (p q : Props) (s : Scene) (old : AreOlder n others)
    (h : IsTidy others n p s) where
  cleaned : (unlisten s.listener s.document).listeners ≡ others
  cleaned = unlisten-owned others n p.is_open s.listener s.document old h.newer h.listeners

  -- Both effects changed.
  both-IsTidy : IsTidy others n q (record {
    document = lock q (listen s.fresh q (unlock (unlisten s.listener s.document)));
    props = q;
    listener = record { identity = s.fresh; on_close = q.on_close };
    fresh = s.fresh + 1;
  })
  unfolding lock unlock set_overflow
  both-IsTidy = record {
    listeners = rw (listen-owned s.fresh q (unlock (unlisten s.listener s.document)), cleaned) refl;
    overflow = overflow-lock q.is_open;
    props = refl;
    calls = refl;
    newer = omega (arith, h.newer, h.made);
    made = omega arith;
  }

  -- Only `onClose` changed.
  first-IsTidy :
      same_bool p.is_open q.is_open ≡ true
      → IsTidy others n q (record {
        document = listen s.fresh q (unlisten s.listener s.document);
        props = q;
        listener = record { identity = s.fresh; on_close = q.on_close };
        fresh = s.fresh + 1;
      })
  first-IsTidy same = record {
    listeners = rw (listen-owned s.fresh q (unlisten s.listener s.document), cleaned) refl;
    overflow =
        listen-overflow s.fresh q (unlisten s.listener s.document)
        ∙ (unlisten-overflow s.listener s.document
            ∙ (h.overflow ∙ ap overflow_at (same_bool-eq p.is_open q.is_open same)));
    props = refl;
    calls = refl;
    newer = omega (arith, h.newer, h.made);
    made = omega arith;
  }

  -- Nothing changed.
  neither-IsTidy :
      same_bool p.is_open q.is_open ≡ true
      → (p.on_close == q.on_close) ≡ true
      → IsTidy others n q (record s { props = q })
  neither-IsTidy same same_call = record {
    listeners = rw (← same_bool-eq p.is_open q.is_open same) h.listeners;
    overflow = rw (← same_bool-eq p.is_open q.is_open same) h.overflow;
    props = refl;
    calls = h.calls ∙ (==_iff p.on_close q.on_close).0 same_call;
    newer = h.newer;
    made = h.made;
  }

render-IsTidy :
    (others : List Listener) (n : ℕ) (p q : Props) (s : Scene)
    → AreOlder n others
    → IsTidy others n p s
    → IsTidy others n q (render q s)
unfolding render
render-IsTidy others n p q s old h = rw h.props (elim (Bool-cases (same_bool p.is_open q.is_open)) [
  | inl same ↦ elim (Bool-cases (p.on_close == q.on_close)) [
    | inl kept ↦ rw (same, kept) (neither-IsTidy others n p q s old h same kept)
    | inr changed ↦ rw (same, changed) (first-IsTidy others n p q s old h same)
  ]
  | inr differ ↦ rw differ (both-IsTidy others n p q s old h)
])

pub alive-IsTidy :
    (p : Props) (qs : List Props) (d : Document) (n : ℕ)
    → AreOlder n d.listeners
    → IsTidy d.listeners n (latest p qs) (alive p qs d n)
unfolding alive
alive-IsTidy p [] d n old = mount-IsTidy d n p
alive-IsTidy p (q ∷ qs) d n old =
    render-IsTidy d.listeners n (latest p qs) q (alive p qs d n) old (alive-IsTidy p qs d n old)

-- The callbacks that Escape calls for a modal with these props.
abbrev pub closes : Props → List ℕ
closes p = if p.is_open then p.on_close ∷ [] else []

calls-owned :
    (p : Props) (f : Listener)
    → f.on_close ≡ p.on_close
    → map (λ g. g.on_close) (owned p.is_open f) ≡ closes p
calls-owned p f e = elim (Bool-cases p.is_open) [
  | inl is_open ↦ rw (is_open, e) refl
  | inr closed ↦ rw closed refl
]

-- However often a modal is rendered, and whatever its properties change to: while it is mounted, Escape
-- calls what it called before and then, exactly if the modal is open, the `onClose` of the last render,
-- once; the overflow of the body is hidden if the modal is open, and unset otherwise. After it has gone,
-- the listeners of the document are those from before, and the overflow is unset; if each listener is a
-- function object of its own.
pub modal_lifetime :
    (p : Props) (qs : List Props) (d : Document) (n : ℕ)
    → AreOlder n d.listeners
    → let s = alive p qs d n in
      (key_down "Escape" s.document ≡ key_down "Escape" d ++ closes (latest p qs))
      × (s.document.overflow ≡ overflow_at (latest p qs).is_open)
      × ((unmount s).listeners ≡ d.listeners)
      × ((unmount s).overflow ≡ "unset")
unfolding key_down unmount unlock set_overflow
modal_lifetime p qs d n old =
    let s = alive p qs d n in
    let h = alive-IsTidy p qs d n old in
    (
      rw
          (
            h.listeners,
            map-append (λ f. f.on_close) d.listeners (owned (latest p qs).is_open s.listener),
          )
          (ap (λ calls. map (λ f. f.on_close) d.listeners ++ calls)
            (calls-owned (latest p qs) s.listener h.calls)),
      h.overflow,
      unlisten-owned d.listeners n (latest p qs).is_open s.listener s.document old h.newer
          h.listeners,
      refl,
    )
