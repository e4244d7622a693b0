-- ===== src/Api/Socket/Liveness.antt =====
-- What is at work for the subscription of ws.ts after any events: its live sockets, its pending
-- timers, and the delay of a reconnection.
use guardian_os_ai.Base.{
  ℕ, zero, suc, ◌^◌, ◌≤◌, ◌<◌, ◌≡◌, refl, ◌⊎◌, inl, inr, Bool, true, false, List, [], ◌∷◌, some,
  none, arith, Any, here, there, if◌then◌else◌,
}
use native.Mathlib.Nat.{pow-suc}
use guardian_os_ai.Platform.{Platform, Storage}
use guardian_os_ai.Api.Socket.{
  backoff, schedule, connect, on_open, on_message, on_close, on_error, cleanup,
}
use guardian_os_ai.Api.Socket.Relation.{
  World, Event, fired, opened, received, errored, shut, unmounted, CanHappen, next, start, Reach,
  started, then_next,
}

pub data Phase (w : World) : Type 0 where
  attached :
      (id : ℕ)
      → w.state.closed ≡ false
      → w.live ≡ id ∷ []
      → w.pending ≡ []
      → w.state.ws ≡ some id
      → Phase w
  waiting :
      (id : ℕ)
      → w.state.closed ≡ false
      → w.live ≡ []
      → w.pending ≡ (id, backoff w.state.retries) ∷ []
      → w.state.reconnect_timer ≡ some id
      → 0 < w.state.retries
      → Phase w
  ended : w.state.closed ≡ true → w.pending ≡ [] → Phase w

start-Phase : (P : Platform) (store : Storage) (b : Bool) → Phase (start P store b)
unfolding start connect schedule
start-Phase P store true = attached 0 refl refl refl refl
start-Phase P store false = waiting 0 refl refl refl refl (omega arith)

not-Any_nil : {A : Type 0} {P : A → Type 0} {xs : List A} → xs ≡ [] → Any P xs → ⊥
not-Any_nil e (here h) = cc
not-Any_nil e (there h) = cc

Any-single :
    {A : Type 0} (f : A → ℕ) (x : A) (id : ℕ) {xs : List A}
    → xs ≡ x ∷ []
    → Any (λ y. f y ≡ id) xs
    → f x ≡ id
Any-single f x id e (here h) = ground arith
Any-single f x id e (there h) = absurd (not-Any_nil (ground arith) h)

module _ (P : Platform) where
  attached_next :
      (e : Event) (w : World) (id : ℕ)
      → CanHappen e w
      → w.state.closed ≡ false
      → w.live ≡ id ∷ []
      → w.pending ≡ []
      → w.state.ws ≡ some id
      → Phase (next P e w)
  unfolding next connect schedule on_open on_message on_close on_error cleanup
  attached_next (fired j store b) w id can c l p ws = absurd (not-Any_nil p can)
  attached_next (opened j) w id can c l p ws = attached id c l p ws
  attached_next (received j none) w id can c l p ws = attached id c l p ws
  attached_next (received j (some frame)) w id can c l p ws = attached id c l p ws
  attached_next (errored j) w id can c l p ws =
      attached id (ground arith) (ground arith) (ground arith) (ground arith)
  attached_next (shut j) w id can c l p ws =
      let same = Any-single (λ x. x) id j l can in
      waiting w.state.next_timer (ground arith) (ground arith) (ground arith) (ground arith)
        (ground arith)
  attached_next unmounted w id can c l p ws = ended (ground arith) (ground arith)

  waiting_next :
      (e : Event) (w : World) (id : ℕ)
      → CanHappen e w
      → w.state.closed ≡ false
      → w.live ≡ []
      → w.pending ≡ (id, backoff w.state.retries) ∷ []
      → w.state.reconnect_timer ≡ some id
      → 0 < w.state.retries
      → Phase (next P e w)
  unfolding next connect schedule on_open on_message on_close on_error cleanup
  waiting_next (fired j store true) w id can c l p r n =
      let same = Any-single (λ (t : ℕ × ℕ). t.0) _ j p can in
      attached w.state.next_socket (ground arith) (ground arith) (ground arith) (ground arith)
  waiting_next (fired j store false) w id can c l p r n =
      let same = Any-single (λ (t : ℕ × ℕ). t.0) _ j p can in
      waiting w.state.next_timer (ground arith) (ground arith) (ground arith) (ground arith)
        (ground arith)
  waiting_next (opened j) w id can c l p r n = absurd (not-Any_nil l can)
  waiting_next (received j frame) w id can c l p r n = absurd (not-Any_nil l can)
  waiting_next (errored j) w id can c l p r n = absurd (not-Any_nil l can)
  waiting_next (shut j) w id can c l p r n = absurd (not-Any_nil l can)
  waiting_next unmounted w id can c l p r n = ended (ground arith) (ground arith)

  ended_next :
      (e : Event) (w : World)
      → CanHappen e w
      → w.state.closed ≡ true
      → w.pending ≡ []
      → Phase (next P e w)
  unfolding next connect schedule on_open on_message on_close on_error cleanup
  ended_next (fired j store b) w can c p = absurd (not-Any_nil p can)
  ended_next (opened j) w can c p = ended c p
  ended_next (received j none) w can c p = ended c p
  ended_next (received j (some frame)) w can c p = ended c p
  ended_next (errored j) w can c p = ended (ground arith) (ground arith)
  ended_next (shut j) w can c p = ended (ground arith) (ground arith)
  ended_next unmounted w can c p = absurd (ground arith)

  next-Phase : (e : Event) {w : World} → CanHappen e w → Phase w → Phase (next P e w)
  next-Phase e can (attached id c l p ws) = attached_next e _ id can c l p ws
  next-Phase e can (waiting id c l p r n) = waiting_next e _ id can c l p r n
  next-Phase e can (ended c p) = ended_next e _ can c p

  Reach-Phase : {w : World} → Reach P w → Phase w
  Reach-Phase (started store b) = start-Phase P store b
  Reach-Phase (then_next e r can) = next-Phase e can (Reach-Phase r)

one-le_pow : (k : ℕ) → 1 ≤ 2 ^ k
one-le_pow zero = omega arith
one-le_pow (suc k) = simp pow-suc (omega (arith, one-le_pow k))

backoff_bounds : (n : ℕ) → 0 < n → (2000 ≤ backoff n) × (backoff n ≤ 15000)
unfolding backoff
backoff_bounds zero h = absurd (omega arith)
backoff_bounds (suc k) h = simp pow-suc (omega (arith, one-le_pow k))

-- What is at work for a mounted subscription: one socket, or one timer with a delay between two and
-- fifteen seconds; and for one that is cleaned up, no timer.
abbrev pub IsAtWork : World → Type 0
IsAtWork w =
    if w.state.closed
    then w.pending ≡ []
    else ((id : ℕ) × (w.live ≡ id ∷ []) × (w.pending ≡ []))
    ⊎ ((id delay : ℕ) × (w.live ≡ [])
        × (w.pending ≡ (id, delay) ∷ [])
        × (2000 ≤ delay)
        × (delay ≤ 15000))

Phase-IsAtWork : {w : World} → Phase w → IsAtWork w
Phase-IsAtWork (attached id c l p ws) = rw c (inl (id, l, p))
Phase-IsAtWork {w} (waiting id c l p r n) =
    let (low, high) = backoff_bounds w.state.retries n in
    rw c (inr (id, backoff w.state.retries, l, p, low, high))
Phase-IsAtWork (ended c p) = rw c p

-- Whatever the browser delivers, in any order: while the subscription is mounted it has exactly one
-- live socket and no timer, or no socket and exactly one pending timer, whose delay lies between 2000
-- and 15000 ms, so it neither stalls nor doubles; once it is cleaned up no reconnection is pending.
pub Reach-IsAtWork : (P : Platform) {w : World} → Reach P w → IsAtWork w
Reach-IsAtWork P r = Phase-IsAtWork (Reach-Phase P r)

closed_keeps :
    (P : Platform) (e : Event) (w : World)
    → CanHappen e w
    → w.pending ≡ []
    → w.state.closed ≡ true
    → ((next P e w).state.closed ≡ true) × ((next P e w).state.next_socket ≡ w.state.next_socket)
unfolding next connect schedule on_open on_message on_close on_error cleanup
closed_keeps P (fired j store b) w can p c = absurd (not-Any_nil p can)
closed_keeps P (opened j) w can p c = (c, refl)
closed_keeps P (received j none) w can p c = (c, refl)
closed_keeps P (received j (some frame)) w can p c = (c, refl)
closed_keeps P (errored j) w can p c = ground arith
closed_keeps P (shut j) w can p c = ground arith
closed_keeps P unmounted w can p c = absurd (ground arith)

-- After the cleanup nothing brings the subscription back: whatever happens next, it stays cleaned up,
-- no timer is pending, and no socket is made.
pub closed_absorbs :
    (P : Platform) (e : Event) {w : World}
    → Reach P w
    → CanHappen e w
    → w.state.closed ≡ true
    → ((next P e w).state.closed ≡ true)
      × ((next P e w).pending ≡ [])
      × ((next P e w).state.next_socket ≡ w.state.next_socket)
closed_absorbs P e {w} r can c =
    let idle : w.pending ≡ [] = rw c at (Reach-IsAtWork P r) in
    let (stays, same) = closed_keeps P e w can idle c in
    let after : IsAtWork (next P e w) = Reach-IsAtWork P (then_next e r can) in
    (stays, rw stays at after, same)
