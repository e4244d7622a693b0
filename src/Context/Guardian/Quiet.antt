-- ===== src/Context/Guardian/Quiet.antt =====
-- The provider comes to rest: what is in flight is answered once, and no answer leads to a call.
use mathlib.Core.Path.{subst}
use guardian_os_ai.Base.{
  length, ℕ, zero, suc, ◌+◌, ◌≡◌, refl, arith, List, [], ◌∷◌, ◌++◌, length-append, append-nil, sym,
}
use guardian_os_ai.Api.Endpoints.{
  Call, fetch_health, fetch_threats, fetch_threat, fetch_events, label_threat, approve_action,
  reject_action, rollback_report,
}
use guardian_os_ai.Context.Guardian.{Guardian}
use guardian_os_ai.Context.Guardian.Requests.{World, Step, answers, settle, IsHonest, settle-issues}
use guardian_os_ai.Context.Guardian.Errors.{failing}

-- A step of the provider that is an answer.
abbrev pub IsAnswer : {w w' : World} → Step w w' → Type 0
IsAnswer (answers w before later c a e honest) = Unit {0}
IsAnswer _ = ⊥

-- So many answers, one after the other, with nothing between them.
pub data Answered : ℕ → World → World → Type 0 where
  none_yet : (w : World) → Answered zero w w
  and_then :
      {n : ℕ} {w w' w'' : World} (st : Step w w')
      → IsAnswer st
      → Answered n w' w''
      → Answered (suc n) w w''

one_less :
    {w w' : World} (st : Step w w') → IsAnswer st → suc (length w'.in_flight) ≡ length w.in_flight
one_less (answers w before later c a e honest) h =
    rw
      (
        e,
        settle-issues c a w.guardian,
        append-nil (before ++ later),
        length-append before later,
        length-append before (c ∷ later),
      )
      (omega arith)
one_less _ h = elim h [ ]

Answered-length :
    {n : ℕ} {w w' : World} → Answered n w w' → n + length w'.in_flight ≡ length w.in_flight
Answered-length (none_yet w) = omega arith
Answered-length (and_then {n} {w} {w'} {w''} st h rest) =
    omega (arith, one_less st h, Answered-length rest)

failing-IsHonest : (c : Call) → IsHonest (failing c "")
failing-IsHonest fetch_health = tt
failing-IsHonest (fetch_threats n) = tt
failing-IsHonest (fetch_threat id) = tt
failing-IsHonest (fetch_events n) = tt
failing-IsHonest (label_threat id b) = tt
failing-IsHonest (approve_action id i) = tt
failing-IsHonest (reject_action id i) = tt
failing-IsHonest (rollback_report id) = tt

length-zero {ℓ} : {A : Type ℓ} (xs : List A) → length xs ≡ 0 → xs ≡ []
length-zero [] h = refl
length-zero (x ∷ xs) h = absurd (omega (arith, h))

-- Every call may fail, the one that was issued first before the others.
full_run :
    (calls : List Call) (g : Guardian)
    → (g' : Guardian) × Answered
        (length calls)
        (record { guardian = g; in_flight = calls })
        (record { guardian = g'; in_flight = [] })
full_run [] g = (g, none_yet _)
full_run (c ∷ calls) g =
    let a = failing c "" in
    let after = (settle c a g).0 in
    let (g', rest) = full_run calls after in
    let same : calls ≡ calls ++ (settle c a g).1 =
      sym (rw (settle-issues c a g) (append-nil calls)) in
    (
      g',
      and_then
          (answers (record { guardian = g; in_flight = c ∷ calls }) [] calls c a refl
            (failing-IsHonest c))
          tt
          (subst
            (λ cs.
              Answered (length calls) (record { guardian = after; in_flight = cs })
                (record { guardian = g'; in_flight = [] }))
            same rest),
    )

-- Answers in any order end: in a run of them, each answer takes one call from those in flight and the
-- callback that it runs makes no other, with a success and with a failure, so that a run is at most as long
-- as the list of calls in flight at its start, and one that long leaves nothing in flight. Such a run there
-- is.
pub answers_end :
    (w : World)
    → ((n : ℕ) (w' : World) → Answered n w w' → n + length w'.in_flight ≡ length w.in_flight)
      × ((w' : World) → Answered (length w.in_flight) w w' → w'.in_flight ≡ [])
      × ((w' : World) × Answered (length w.in_flight) w w')
answers_end w =
    let (g', run) = full_run w.in_flight w.guardian in
    (
      λ n w' some_run. Answered-length some_run,
      λ w' full. length-zero w'.in_flight (omega (arith, Answered-length full)),
      (record { guardian = g'; in_flight = [] }, run),
    )
