-- ===== src/Pages/Chart/Cells.antt =====
-- Each count of the chart against the reports of its minute.
use guardian_os_ai.Base.{
  ℕ, zero, suc, ◌+◌, ◌*◌, ◌<◌, ◌≤◌, ◌≡◌, refl, ap, ◌∙◌, Bool, true, false, ◌&&◌, ◌||◌, List, [],
  ◌∷◌, map, count, All, if◌then◌else◌, ◌==◌, leb, ltb, arith,
}
use guardian_os_ai.Api.Types.{
  Severity, info, low, medium, high, critical, ThreatReport, severity_eq, severity_name,
}
use guardian_os_ai.Pages.Chart.{severities, index_of, minute, bucket_of, increment, add_at, fill}
use guardian_os_ai.Pages.Chart.Buckets.{bucket_of-lt}

-- The values of `f` at `i`, `i + 1` and so on, `n` of them.
abbrev pub tab : (ℕ → ℕ) → ℕ → ℕ → List ℕ
tab f i zero = []
tab f i (suc n) = f i ∷ tab f (suc i) n

-- The time falls in the minute `from + j`; the last of `n` minutes takes what comes after it, too.
abbrev pub falls_in : ℕ → ℕ → ℕ → ℕ → Bool
falls_in from n j t = leb ((from + j) * minute) t && (ltb t ((from + j + 1) * minute) || j + 1 == n)

abbrev pub cell : ℕ → ℕ → List ThreatReport → Severity → ℕ → ℕ
cell from n ts s j =
    count (λ t. severity_eq t.detection.severity s && falls_in from n j t.timestamp) ts

tab-ext :
    (f g : ℕ → ℕ) (i n top : ℕ)
    → i + n ≡ top
    → ((j : ℕ) → i ≤ j → j < top → f j ≡ g j)
    → tab f i n ≡ tab g i n
tab-ext f g i zero top e h = refl
tab-ext f g i (suc n) top e h =
    rw
      (
        h i (omega arith) (omega (arith, e)),
        tab-ext f g (suc i) n top (omega (arith, e)) (λ j a b. h j (omega (arith, a)) b),
      )
      refl

increment-tab :
    (f g : ℕ → ℕ) (k i n m top : ℕ)
    → k < n
    → i + k ≡ m
    → i + n ≡ top
    → ((j : ℕ) → j < top → g j ≡ f j + (if j == m then 1 else 0))
    → increment k (tab f i n) ≡ tab g i n
increment-tab f g k i zero m top lt at e h = absurd (omega (arith, lt))
increment-tab f g zero i (suc n) m top lt at e h =
    rw
      (
        h i (omega (arith, e)),
        tab-ext g f (suc i) n top (omega (arith, e)) (λ j a b. ground (arith, a, at, h j b)),
      )
      (ground (arith, at))
increment-tab f g (suc k) i (suc n) m top lt at e h =
    rw
      (
        h i (omega (arith, e)),
        increment-tab f g k (suc i) n m top (omega (arith, lt)) (omega (arith, at))
            (omega (arith, e)) h,
      )
      (ground (arith, at))

bucket_of-falls_in :
    (from n j t : ℕ)
    → 0 < n
    → from * minute ≤ t
    → j < n
    → (j == bucket_of from n t) ≡ falls_in from n j t
unfolding bucket_of
bucket_of-falls_in from n j t pos after lt = ground arith

abbrev pub grid : ℕ → (Severity → ℕ → ℕ) → List (List ℕ)
grid n f = map (λ s. tab (f s) 0 n) severities

abbrev bump : ℕ → ℕ → ThreatReport → (Severity → ℕ → ℕ) → Severity → ℕ → ℕ
bump from n t f s j =
    f s j + (if severity_eq t.detection.severity s && falls_in from n j t.timestamp then 1 else 0)

four {ℓ} :
    {A : Type ℓ} {a a' b b' c c' d d' : A}
    → a ≡ a'
    → b ≡ b'
    → c ≡ c'
    → d ≡ d'
    → ◌≡◌ {A = List A} (a ∷ b ∷ c ∷ d ∷ []) (a' ∷ b' ∷ c' ∷ d' ∷ [])
four p q r s i = p i ∷ q i ∷ r i ∷ s i ∷ []

zero_right : (m : ℕ) → m ≡ m + 0
zero_right m = omega arith

module _ (from n : ℕ) (pos : 0 < n) where
  -- The row of the report's severity, and another row.
  bump_own :
      (t : ThreatReport) (f : Severity → ℕ → ℕ) (s : Severity)
      → from * minute ≤ t.timestamp
      → severity_eq t.detection.severity s ≡ true
      → increment (bucket_of from n t.timestamp) (tab (f s) 0 n) ≡ tab (bump from n t f s) 0 n
  bump_own t f s after own =
      increment-tab (f s) (bump from n t f s) (bucket_of from n t.timestamp) 0 n
        (bucket_of from n t.timestamp) n (bucket_of-lt from n t.timestamp pos) (omega arith)
        (omega arith) (λ j lt. rw (own, bucket_of-falls_in from n j t.timestamp pos after lt) refl)

  bump_other :
      (t : ThreatReport) (f : Severity → ℕ → ℕ) (s : Severity)
      → severity_eq t.detection.severity s ≡ false
      → tab (f s) 0 n ≡ tab (bump from n t f s) 0 n
  bump_other t f s other =
      tab-ext (f s) (bump from n t f s) 0 n n (omega arith) (λ j a b. rw other (omega arith))

  add_at-grid :
      (t : ThreatReport) (sev : Severity) (f : Severity → ℕ → ℕ)
      → from * minute ≤ t.timestamp
      → t.detection.severity ≡ sev
      → add_at (index_of sev) (bucket_of from n t.timestamp) (grid n f) ≡ grid n (bump from n t f)
  unfolding severity_eq severity_name
  add_at-grid t info f after e =
      four (bump_other t f critical (rw e refl)) (bump_other t f high (rw e refl))
        (bump_other t f medium (rw e refl)) (bump_other t f low (rw e refl))
  add_at-grid t critical f after e =
      four (bump_own t f critical after (rw e refl)) (bump_other t f high (rw e refl))
        (bump_other t f medium (rw e refl)) (bump_other t f low (rw e refl))
  add_at-grid t high f after e =
      four (bump_other t f critical (rw e refl)) (bump_own t f high after (rw e refl))
        (bump_other t f medium (rw e refl)) (bump_other t f low (rw e refl))
  add_at-grid t medium f after e =
      four (bump_other t f critical (rw e refl)) (bump_other t f high (rw e refl))
        (bump_own t f medium after (rw e refl)) (bump_other t f low (rw e refl))
  add_at-grid t low f after e =
      four (bump_other t f critical (rw e refl)) (bump_other t f high (rw e refl))
        (bump_other t f medium (rw e refl)) (bump_own t f low after (rw e refl))

  cell_step :
      (f : Severity → ℕ → ℕ) (s : Severity) (j : ℕ) (t : ThreatReport) (ts : List ThreatReport)
      → bump from n t f s j + cell from n ts s j ≡ f s j + cell from n (t ∷ ts) s j
  cell_step f s j t ts = ground arith

  pub fill-grid :
      (ts : List ThreatReport) (f : Severity → ℕ → ℕ)
      → All (λ t. from * minute ≤ t.timestamp) ts
      → fill from n ts (grid n f) ≡ grid n (λ s j. f s j + cell from n ts s j)
  unfolding fill
  fill-grid [] f h = ap (grid n) (λ i s j. zero_right (f s j) i)
  fill-grid (t ∷ ts) f (after, h) =
      ap (fill from n ts) (add_at-grid t t.detection.severity f after refl)
      ∙ (fill-grid ts (bump from n t f) h ∙ ap (grid n) (λ i s j. cell_step f s j t ts i))
