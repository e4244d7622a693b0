-- ===== src/Pages/Chart.antt =====
-- frontend/src/components/charts/EventChart.tsx: the reports in buckets of a minute, a row for each
-- severity that is drawn.
pub mod Rows
pub mod Buckets
pub mod Cells
pub mod Spans
pub mod Drawn
use guardian_os_ai.Base.{
  ℕ, zero, suc, ◌+◌, ◌-◌, ◌*◌, ◌/◌, min, max, Bool, true, false, String, List, [], ◌∷◌, Option,
  none, some, map, replicate, str_eq, if◌then◌else◌,
}
use guardian_os_ai.Platform.{Platform}
use guardian_os_ai.Api.Types.{
  Severity, info, low, medium, high, critical, ThreatReport, severity_name,
}
use guardian_os_ai.Format.{second}

abbrev pub severities : List Severity
severities = critical ∷ high ∷ medium ∷ low ∷ []

-- `SEVERITIES.indexOf(severity)`; `none` is -1.
abbrev pub index_of : Severity → Option ℕ
index_of critical = some 0
index_of high = some 1
index_of medium = some 2
index_of low = some 3
index_of info = none

abbrev pub minute : ℕ
minute = 60 * second

-- `Math.min(...)` and `Math.max(...)` of the timestamps of a list that is not empty.
abbrev pub earliest : ℕ → List ThreatReport → ℕ
earliest t [] = t
earliest t (r ∷ rs) = earliest (min t r.timestamp) rs

abbrev pub latest : ℕ → List ThreatReport → ℕ
latest t [] = t
latest t (r ∷ rs) = latest (max t r.timestamp) rs

-- The minutes, counted from the epoch, between which the chart runs: `min / 60` and `max / 60`.
unfoldable pub floor_minute : ℕ → ℕ
floor_minute t = t / minute

unfoldable pub ceil_minute : ℕ → ℕ
ceil_minute t = (t + (minute - 1)) / minute

unfoldable pub bucket_count : ℕ → ℕ → ℕ
bucket_count from to = max 1 (to - from)

-- `Math.min(buckets - 1, Math.floor((timestamp - min) / 60))`
unfoldable pub bucket_of : ℕ → ℕ → ℕ → ℕ
bucket_of from buckets t = min (buckets - 1) ((t - from * minute) / minute)

abbrev pub increment : ℕ → List ℕ → List ℕ
increment i [] = []
increment zero (n ∷ ns) = (n + 1) ∷ ns
increment (suc i) (n ∷ ns) = n ∷ increment i ns

-- `counts[sev][idx] += 1`
abbrev pub increment_at : ℕ → ℕ → List (List ℕ) → List (List ℕ)
increment_at sev i [] = []
increment_at zero i (row ∷ rows) = increment i row ∷ rows
increment_at (suc sev) i (row ∷ rows) = row ∷ increment_at sev i rows

abbrev pub add_at : Option ℕ → ℕ → List (List ℕ) → List (List ℕ)
add_at none i rows = rows
add_at (some sev) i rows = increment_at sev i rows

-- The loop over the reports.
unfoldable pub fill : ℕ → ℕ → List ThreatReport → List (List ℕ) → List (List ℕ)
unfolding bucket_of
fill from buckets [] rows = rows
fill from buckets (t ∷ ts) rows =
    fill from buckets ts
      (add_at (index_of t.detection.severity) (bucket_of from buckets t.timestamp) rows)

pub record Series : Type 0 where
  pub categories : List String
  pub rows : List (List ℕ)
  pub bucket_ms : ℕ

abbrev pub minute_labels : Platform → ℕ → ℕ → List String
minute_labels P from zero = []
minute_labels P from (suc n) = P.locale_minute (from * minute) ∷ minute_labels P (from + 1) n

-- The memo of `EventChart`: nothing for no report.
unfoldable pub series : Platform → List ThreatReport → Option Series
unfolding fill floor_minute ceil_minute bucket_count
series P [] = none
series P (t ∷ ts) =
    let from = floor_minute (earliest t.timestamp ts) in
    let to = ceil_minute (latest t.timestamp ts) in
    let buckets = bucket_count from to in
    some (record {
      categories = minute_labels P from buckets;
      rows = fill from buckets (t ∷ ts) (map (λ s. replicate buckets 0) severities);
      bucket_ms = 60000;
    })

-- The colours of the rows.
unfoldable pub row_color : Severity → String
row_color critical = "#f04438"
row_color high = "#fd853a"
row_color medium = "#fdb022"
row_color _ = "#0ba5ec"

-- `severityToneHex`, on any string.
unfoldable pub severity_tone_hex : String → String
severity_tone_hex severity =
    if str_eq severity "critical"
    then "#f04438"
    else if str_eq severity "high"
    then "#fd853a"
    else if str_eq severity "medium"
    then "#fdb022"
    else if str_eq severity "low"
    then "#0ba5ec"
    else "#98a2b3"
