-- ===== src/Format/Posture.antt =====
-- The overall posture and the severity counts, against their descriptions without the code's loops.
use guardian_os_ai.Base.{
  ℕ, ◌+◌, ◌≡◌, refl, ◌↔◌, ◌⊎◌, inl, inr, Bool, true, false, List, [], ◌∷◌, arith, length, count,
  filter, any, Any, here, there, Bool-cases,
}
use guardian_os_ai.Api.Types.{
  Severity, low, medium, high, critical, recommended, pending_approval, approved, ThreatReport,
  ResponseAction, severity_eq, status_eq,
}
use guardian_os_ai.Format.{
  ThreatLevel, red, amber, green, blue, is_open_action, is_open, is_severe, is_moderate,
  threat_level, SeverityCounts, count_of, bump, count_threats, severity_counts,
}

-- The action still waits for something: it is recommended, pending or approved but not executed.
abbrev pub IsOpenAction : ResponseAction → Type 0
IsOpenAction a = (a.status ≡ recommended) ⊎ (a.status ≡ pending_approval) ⊎ (a.status ≡ approved)

abbrev pub IsOpen : ThreatReport → Type 0
IsOpen t = Any IsOpenAction t.actions

abbrev pub IsSevere : ThreatReport → Type 0
IsSevere t = (t.detection.severity ≡ critical) ⊎ (t.detection.severity ≡ high)

abbrev pub IsModerate : ThreatReport → Type 0
IsModerate t = (t.detection.severity ≡ medium) ⊎ (t.detection.severity ≡ low)

is_open_action_iff : (a : ResponseAction) → (is_open_action a ≡ true) ↔ IsOpenAction a
unfolding is_open_action status_eq
is_open_action_iff a = ground arith

is_severe_iff : (t : ThreatReport) → (is_severe t ≡ true) ↔ IsSevere t
unfolding is_severe severity_eq
is_severe_iff t = ground arith

is_moderate_iff : (t : ThreatReport) → (is_moderate t ≡ true) ↔ IsModerate t
unfolding is_moderate severity_eq
is_moderate_iff t = ground arith

module _ {A : Type 0} (p : A → Bool) (P : A → Type 0) (agree : (x : A) → (p x ≡ true) ↔ P x) where
  Any-of_any : (xs : List A) → any p xs ≡ true → Any P xs
  Any-of_any [] h = cc
  Any-of_any (x ∷ xs) h = elim (Bool-cases (p x)) [
    | inl e ↦ here ((agree x).0 e)
    | inr e ↦ there (Any-of_any xs (ground arith))
  ]

  any-of_Any : {xs : List A} → Any P xs → any p xs ≡ true
  any-of_Any (here h) = rw ((agree _).1 h) refl
  any-of_Any (there {x = x} h) = ground (arith, any-of_Any h)

is_open_iff : (t : ThreatReport) → (is_open t ≡ true) ↔ IsOpen t
unfolding is_open
is_open_iff t = (Any-of_any _ _ is_open_action_iff t.actions, any-of_Any _ _ is_open_action_iff)

-- `filter` and then `some`: an element passes both tests.
module _ (p : ThreatReport → Bool) (P : ThreatReport → Type 0)
    (agree : (x : ThreatReport) → (p x ≡ true) ↔ P x) where
  Any-IsOpen_of_any :
      (ts : List ThreatReport) → any p (filter is_open ts) ≡ true → Any (λ t. IsOpen t × P t) ts
  Any-IsOpen_of_any [] h = cc
  Any-IsOpen_of_any (t ∷ ts) h = elim (Bool-cases (is_open t)) [
    | inl e ↦ elim (Bool-cases (p t)) [
      | inl e' ↦ here ((is_open_iff t).0 e, (agree t).0 e')
      | inr e' ↦ there (Any-IsOpen_of_any ts (ground arith))
    ]
    | inr e ↦ there (Any-IsOpen_of_any ts (ground arith))
  ]

  any-of_Any_open :
      {ts : List ThreatReport} → Any (λ t. IsOpen t × P t) ts → any p (filter is_open ts) ≡ true
  any-of_Any_open (here {x = t} h) = rw ((is_open_iff t).1 h.0) (rw ((agree t).1 h.1) refl)
  any-of_Any_open (there {x = t} h) = ground (arith, any-of_Any_open h)

-- What each posture means for the reports and the learning flag that it is shown for.
pub record Explains (threats : List ThreatReport) (learning : Bool) (level : ThreatLevel)
    : Type 0 where
  pub learns : (level ≡ record { label = "LEARNING"; tone = blue }) ↔ (learning ≡ true)
  pub active :
      (level ≡ record { label = "THREAT ACTIVE"; tone = red })
      ↔ ((learning ≡ false) × Any (λ t. IsOpen t × IsSevere t) threats)
  pub elevated : (level ≡ record { label = "ELEVATED"; tone = amber }) ↔ (
      (learning ≡ false)
      × ¬ Any (λ t. IsOpen t × IsSevere t) threats
      × Any (λ t. IsOpen t × IsModerate t) threats)
  pub protected : (level ≡ record { label = "PROTECTED"; tone = green }) ↔ (
      (learning ≡ false)
      × ¬ Any (λ t. IsOpen t × IsSevere t) threats
      × ¬ Any (λ t. IsOpen t × IsModerate t) threats)

some-IsSevere_iff :
    (ts : List ThreatReport)
    → (any is_severe (filter is_open ts) ≡ true) ↔ Any (λ t. IsOpen t × IsSevere t) ts
some-IsSevere_iff ts =
    (Any-IsOpen_of_any is_severe _ is_severe_iff ts, any-of_Any_open is_severe _ is_severe_iff)

some-IsModerate_iff :
    (ts : List ThreatReport)
    → (any is_moderate (filter is_open ts) ≡ true) ↔ Any (λ t. IsOpen t × IsModerate t) ts
some-IsModerate_iff ts = (
  Any-IsOpen_of_any is_moderate _ is_moderate_iff ts,
  any-of_Any_open is_moderate _ is_moderate_iff,
)

-- The posture is "LEARNING" exactly while the engine learns; otherwise "THREAT ACTIVE" exactly when
-- a high or critical report has an open action, "ELEVATED" exactly when none has but a low or medium
-- one does, and "PROTECTED" exactly when neither has.
pub threat_level-Explains :
    (threats : List ThreatReport) (learning : Bool)
    → Explains threats learning (threat_level threats learning)
unfolding threat_level
threat_level-Explains threats learning = record {
  learns = ground arith;
  active = ground (arith, some-IsSevere_iff threats);
  elevated = grind (arith, some-IsSevere_iff threats, some-IsModerate_iff threats);
  protected = grind (arith, some-IsSevere_iff threats, some-IsModerate_iff threats);
}

abbrev pub total : SeverityCounts → ℕ
total c = c.info + c.low + c.medium + c.high + c.critical

abbrev zero_counts : SeverityCounts
zero_counts = record { info = 0; low = 0; medium = 0; high = 0; critical = 0 }

count_of-count_threats :
    (s : Severity) (c : SeverityCounts) (ts : List ThreatReport)
    → count_of (count_threats c ts) s
      ≡ count_of c s + count (λ t. severity_eq t.detection.severity s) ts
unfolding count_of count_threats severity_eq
count_of-count_threats s c [] = omega arith
count_of-count_threats s c (t ∷ ts) =
    ground (arith, count_of-count_threats s (bump c t.detection.severity) ts)

total-count_threats :
    (c : SeverityCounts) (ts : List ThreatReport) → total (count_threats c ts) ≡ total c + length ts
unfolding count_threats
total-count_threats c [] = omega arith
total-count_threats c (t ∷ ts) =
    ground (arith, total-count_threats (bump c t.detection.severity) ts)

-- Each severity is counted as often as reports have it, and the five counts add up to the number of
-- reports: no report is lost or counted twice.
pub severity_counts_exact :
    (threats : List ThreatReport)
    → ((s : Severity)
        → count_of (severity_counts threats) s
          ≡ count (λ t. severity_eq t.detection.severity s) threats)
      × (total (severity_counts threats) ≡ length threats)
unfolding severity_counts count_of
severity_counts_exact threats = (
  λ s. ground (arith, count_of-count_threats s zero_counts threats),
  omega (arith, total-count_threats zero_counts threats),
)
