-- ===== src/Pages/Chart/Spans.antt =====
-- The minutes that the chart runs over, and its whole contents.
use guardian_os_ai.Base.{
  ℕ, zero, suc, ◌+◌, ◌*◌, min, max, ◌<◌, ◌≤◌, ◌≡◌, ◌⊎◌, inl, inr, refl, ap, ◌∙◌, List, [], ◌∷◌,
  some, replicate, get_elem?, All, All-imp, Any, Any-imp, here, there, arith,
}
use guardian_os_ai.Platform.{Platform}
use guardian_os_ai.Api.Types.{ThreatReport}
use guardian_os_ai.Pages.Chart.{
  minute, earliest, latest, floor_minute, ceil_minute, bucket_count, fill, series, minute_labels,
}
use guardian_os_ai.Pages.Chart.Cells.{tab, cell, grid, fill-grid}

min-cases : (x y : ℕ) → (min x y ≡ x) ⊎ (min x y ≡ y)
min-cases x y = ground arith

max-cases : (x y : ℕ) → (max x y ≡ x) ⊎ (max x y ≡ y)
max-cases x y = ground arith

earliest-le :
    (x : ℕ) (ts : List ThreatReport)
    → (earliest x ts ≤ x) × All (λ t. earliest x ts ≤ t.timestamp) ts
earliest-le x [] = (omega arith, tt)
earliest-le x (t ∷ ts) =
    let (le, rest) = earliest-le (min x t.timestamp) ts in
    (omega (arith, le), (omega (arith, le), rest))

earliest_reached :
    (x : ℕ) (ts : List ThreatReport)
    → (earliest x ts ≡ x) ⊎ Any (λ t. earliest x ts ≡ t.timestamp) ts
earliest_reached x [] = inl refl
earliest_reached x (t ∷ ts) = elim (earliest_reached (min x t.timestamp) ts) [
  | inl e ↦ elim (min-cases x t.timestamp) [
    | inl own ↦ inl (e ∙ own)
    | inr first ↦ inr (here (e ∙ first))
  ]
  | inr later ↦ inr (there later)
]

latest-ge :
    (x : ℕ) (ts : List ThreatReport) → (x ≤ latest x ts) × All (λ t. t.timestamp ≤ latest x ts) ts
latest-ge x [] = (omega arith, tt)
latest-ge x (t ∷ ts) =
    let (le, rest) = latest-ge (max x t.timestamp) ts in
    (omega (arith, le), (omega (arith, le), rest))

latest_reached :
    (x : ℕ) (ts : List ThreatReport) → (latest x ts ≡ x) ⊎ Any (λ t. latest x ts ≡ t.timestamp) ts
latest_reached x [] = inl refl
latest_reached x (t ∷ ts) = elim (latest_reached (max x t.timestamp) ts) [
  | inl e ↦ elim (max-cases x t.timestamp) [
    | inl own ↦ inl (e ∙ own)
    | inr first ↦ inr (here (e ∙ first))
  ]
  | inr later ↦ inr (there later)
]

-- The `n` minutes from the minute `from` on are those of the reports: no report is before the first, one
-- falls in the first, none is after the end of the last, and the last is the first or not in vain.
pub record Spans (ts : List ThreatReport) (from n : ℕ) : Type 0 where
  pub starts : All (λ t. from * minute ≤ t.timestamp) ts
  pub begun : Any (λ t. t.timestamp < (from + 1) * minute) ts
  pub ends : All (λ t. t.timestamp ≤ (from + n) * minute) ts
  pub needed : (n ≡ 1) ⊎ Any (λ t. (from + n) * minute < t.timestamp + minute) ts

pub labels-at :
    (P : Platform) (from n j : ℕ)
    → j < n
    → get_elem? (minute_labels P from n) j ≡ some (P.locale_minute ((from + j) * minute))
labels-at P from zero j h = absurd (omega (arith, h))
labels-at P from (suc n) zero h = ap (λ m. some (P.locale_minute (m * minute))) (omega arith)
labels-at P from (suc n) (suc j) h =
    labels-at P (from + 1) n j (omega (arith, h))
    ∙ ap (λ m. some (P.locale_minute (m * minute))) (omega arith)

replicate-tab : (n i : ℕ) → replicate n 0 ≡ tab (λ j. 0) i n
replicate-tab zero i = refl
replicate-tab (suc n) i = ap (λ row. 0 ∷ row) (replicate-tab n (suc i))

zero_left : (m : ℕ) → 0 + m ≡ m
zero_left m = omega arith

All-both :
    (lo hi : ℕ) (ts : List ThreatReport)
    → All (λ t. lo ≤ t.timestamp) ts
    → All (λ t. t.timestamp ≤ hi) ts
    → All (λ t. (lo ≤ t.timestamp) × (t.timestamp ≤ hi)) ts
All-both lo hi [] h k = tt
All-both lo hi (t ∷ ts) (h, hs) (k, ks) = ((h, k), All-both lo hi ts hs ks)

module _ (t : ThreatReport) (ts : List ThreatReport) where
  abbrev pub first : ℕ
  first = earliest t.timestamp ts

  abbrev pub last : ℕ
  last = latest t.timestamp ts

  abbrev pub from : ℕ
  from = floor_minute first

  abbrev pub width : ℕ
  width = bucket_count from (ceil_minute last)

  width-pos : 0 < width
  unfolding bucket_count
  width-pos = omega arith

  at_first : Any (λ u. first ≡ u.timestamp) (t ∷ ts)
  at_first = elim (earliest_reached t.timestamp ts) [ inl e ↦ here e | inr later ↦ there later ]

  at_last : Any (λ u. last ≡ u.timestamp) (t ∷ ts)
  at_last = elim (latest_reached t.timestamp ts) [ inl e ↦ here e | inr later ↦ there later ]

  first-le-last : first ≤ last
  first-le-last = omega (arith, (earliest-le t.timestamp ts).0, (latest-ge t.timestamp ts).0)

  in_span : (x : ℕ) → first ≤ x → x ≤ last → (from * minute ≤ x) × (x ≤ (from + width) * minute)
  unfolding floor_minute ceil_minute bucket_count
  in_span x after before = (omega (arith, after), omega (arith, after, before))

  begins_at : (x : ℕ) → first ≡ x → x < (from + 1) * minute
  unfolding floor_minute
  begins_at x e = omega (arith, e)

  needed_at : (width ≡ 1) ⊎ ((from + width) * minute < last + minute)
  unfolding floor_minute ceil_minute bucket_count
  needed_at = ground (arith, first-le-last)

  pub spans : Spans (t ∷ ts) from width
  spans = record {
    starts = All-imp (λ u h. (in_span u.timestamp h.0 h.1).0) (t ∷ ts) inside;
    begun = Any-imp (λ u e. begins_at u.timestamp e) at_first;
    ends = All-imp (λ u h. (in_span u.timestamp h.0 h.1).1) (t ∷ ts) inside;
    needed = elim needed_at [
      | inl one ↦ inl one
      | inr more ↦ inr (Any-imp (λ u e. omega (arith, more, e)) at_last)
    ];
  }
    where
      inside : All (λ u. (first ≤ u.timestamp) × (u.timestamp ≤ last)) (t ∷ ts)
      inside = (
        ((earliest-le t.timestamp ts).0, (latest-ge t.timestamp ts).0),
        All-both first last ts (earliest-le t.timestamp ts).1 (latest-ge t.timestamp ts).1,
      )

  -- The memo of the chart in closed form.
  pub series-exact :
      (P : Platform)
      → series P (t ∷ ts)
        ≡ some (record {
          categories = minute_labels P from width;
          rows = grid width (cell from width (t ∷ ts));
          bucket_ms = 60000;
        })
  unfolding series
  series-exact P =
      ap
        (λ rows.
          some (record { categories = minute_labels P from width; rows = rows; bucket_ms = 60000 }))
        (ap (λ row. fill from width (t ∷ ts) (row ∷ row ∷ row ∷ row ∷ [])) (replicate-tab width 0)
          ∙ fill-grid from width width-pos (t ∷ ts) (λ s j. 0) spans.starts
          ∙ ap (grid width) (λ i s j. zero_left (cell from width (t ∷ ts) s j) i))
