-- ===== src/Pages/Chart/Buckets.antt =====
-- The rows of the chart against the reports that they are made from.
use guardian_os_ai.Base.{
  ℕ, zero, suc, ◌+◌, ◌*◌, ◌<◌, ◌≤◌, ◌≡◌, refl, ap, ◌∙◌, List, [], ◌∷◌, some, map, replicate, length,
  length-replicate, count, arith,
}
use guardian_os_ai.Platform.{Platform}
use guardian_os_ai.Api.Types.{critical, high, medium, low, Severity, ThreatReport, severity_eq}
use guardian_os_ai.Pages.Chart.{
  severities, index_of, minute, earliest, latest, floor_minute, ceil_minute, bucket_count,
  bucket_of, add_at, fill, Series, series, minute_labels,
}
use guardian_os_ai.Pages.Chart.Rows.{sum, row_total, IsGrid, add_at-IsGrid, row_total-add_at}

pub bucket_of-lt : (from b t : ℕ) → 0 < b → bucket_of from b t < b
unfolding bucket_of
bucket_of-lt from b t h = omega arith

fill-IsGrid :
    (from b : ℕ) (ts : List ThreatReport) (rows : List (List ℕ))
    → IsGrid b rows
    → IsGrid b (fill from b ts rows)
unfolding fill
fill-IsGrid from b [] rows g = g
fill-IsGrid from b (t ∷ ts) rows g =
    fill-IsGrid from b ts _ (add_at-IsGrid b _ (index_of t.detection.severity) rows g)

row_total-fill :
    (from b k : ℕ) (s : Severity) (ts : List ThreatReport) (rows : List (List ℕ))
    → IsGrid b rows
    → 0 < b
    → index_of s ≡ some k
    → row_total k (fill from b ts rows)
      ≡ row_total k rows + count (λ t. severity_eq t.detection.severity s) ts
unfolding fill
row_total-fill from b k s [] rows g pos e = omega arith
row_total-fill from b k s (t ∷ ts) rows g pos e =
    let i = bucket_of from b t.timestamp in
    let rows' = add_at (index_of t.detection.severity) i rows in
    ground (
      arith,
      row_total-fill from b k s ts rows' (add_at-IsGrid b i (index_of t.detection.severity) rows g)
          pos e,
      row_total-add_at b i k s t.detection.severity rows g (bucket_of-lt from b t.timestamp pos) e,
    )

pub length-minute_labels : (P : Platform) (from n : ℕ) → length (minute_labels P from n) ≡ n
length-minute_labels P from zero = refl
length-minute_labels P from (suc n) = ap suc (length-minute_labels P (from + 1) n)

sum-replicate_zero : (n : ℕ) → sum (replicate n 0) ≡ 0
sum-replicate_zero zero = refl
sum-replicate_zero (suc n) = omega (arith, sum-replicate_zero n)

abbrev empty_rows : ℕ → List (List ℕ)
empty_rows b = map (λ s. replicate b 0) severities

row_total-empty : (b k : ℕ) → row_total k (empty_rows b) ≡ 0
row_total-empty b zero = sum-replicate_zero b
row_total-empty b (suc zero) = sum-replicate_zero b
row_total-empty b (suc (suc zero)) = sum-replicate_zero b
row_total-empty b (suc (suc (suc zero))) = sum-replicate_zero b
row_total-empty b (suc (suc (suc (suc k)))) = refl

empty_rows-IsGrid : (b : ℕ) → IsGrid b (empty_rows b)
empty_rows-IsGrid b = let n = length-replicate {0} {A = ℕ} b 0 in ((n, (n, (n, (n, tt)))), refl)

bucket_count-pos : (from to : ℕ) → 0 < bucket_count from to
unfolding bucket_count
bucket_count-pos from to = omega arith

-- What the chart shows of a list that is not empty.
pub record Draws (ts : List ThreatReport) (sr : Series) : Type 0 where
  pub grid : IsGrid (length sr.categories) sr.rows
  pub totals :
      map sum sr.rows ≡ map (λ s. count (λ t. severity_eq t.detection.severity s) ts) severities

-- Four rows by their totals.
map-sum_four :
    (rows : List (List ℕ))
    → length rows ≡ 4
    → map sum rows ≡ row_total 0 rows ∷ row_total 1 rows ∷ row_total 2 rows ∷ row_total 3 rows ∷ []
map-sum_four (a ∷ b ∷ c ∷ d ∷ []) e = refl
map-sum_four _ e = absurd (omega (arith, e))

-- For a list that is not empty there is a chart: it has one row for each of the four severities that
-- are drawn, each row is as long as the list of labels, and a row adds up to the number of reports of
-- its severity, so no report is lost, counted twice or written past the end of a row.
pub series-Draws :
    (P : Platform) (t : ThreatReport) (ts : List ThreatReport)
    → (sr : Series) × (series P (t ∷ ts) ≡ some sr) × Draws (t ∷ ts) sr
unfolding series
series-Draws P t ts = (
  _,
  refl,
  record {
    grid =
        rw (length-minute_labels P from b)
          (fill-IsGrid from b (t ∷ ts) (empty_rows b) (empty_rows-IsGrid b));
    totals =
        map-sum_four drawn (fill-IsGrid from b (t ∷ ts) (empty_rows b) (empty_rows-IsGrid b)).1
        ∙ rw
            (
              total_of critical 0 refl,
              total_of high 1 refl,
              total_of medium 2 refl,
              total_of low 3 refl,
            )
            refl;
  },
)
  where
    from : ℕ
    from = floor_minute (earliest t.timestamp ts)

    to : ℕ
    to = ceil_minute (latest t.timestamp ts)

    b : ℕ
    b = bucket_count from to

    drawn : List (List ℕ)
    drawn = fill from b (t ∷ ts) (empty_rows b)

    total_of :
        (s : Severity) (k : ℕ)
        → index_of s ≡ some k
        → row_total k drawn ≡ count (λ u. severity_eq u.detection.severity s) (t ∷ ts)
    total_of s k e =
        row_total-fill from b k s (t ∷ ts) (empty_rows b) (empty_rows-IsGrid b)
          (bucket_count-pos from to) e
        ∙ rw (row_total-empty b k) (omega arith)

-- A report whose time lies between the first and the last minute of the chart is counted in the
-- bucket of its own minute.
pub bucket_of-minute :
    (from to t : ℕ)
    → from * minute ≤ t
    → t < to * minute
    → (from + bucket_of from (bucket_count from to) t) * minute ≤ t
      × (t < (from + bucket_of from (bucket_count from to) t + 1) * minute)
unfolding bucket_of bucket_count
bucket_of-minute from to t after before = omega arith
