-- ===== src/Pages/Chart/Drawn.antt =====
-- What `EventChart` hands to the chart package: the options, and a named row of counts for each severity.
use guardian_os_ai.Base.{
  ℕ, suc, ◌+◌, ◌*◌, ◌<◌, ◌∙◌, sym, ◌≡◌, refl, ap, arith, true, false, String, List, [], ◌∷◌, Option,
  none, some, map, length, count, get_elem?,
}
use guardian_os_ai.Platform.{Platform}
use guardian_os_ai.Api.Types.{
  Severity, critical, high, medium, low, ThreatReport, severity_name, severity_eq, Json, bool, num,
  str, arr, obj, Items, nil, cons, end, field,
}
use guardian_os_ai.Pages.Chart.{severities, Series, series, row_color, minute, minute_labels}
use guardian_os_ai.Api.Client.{member}
use guardian_os_ai.Pages.Chart.Cells.{tab, cell, grid}
use guardian_os_ai.Pages.Chart.Spans.{Spans, spans, from, width, series-exact, labels-at}
use guardian_os_ai.Pages.Chart.Rows.{sum}
use guardian_os_ai.Pages.Chart.Buckets.{series-Draws, length-minute_labels}

-- The properties of `Chart`; a row that is out of range is undefined.
pub record Chart : Type 0 where
  pub kind : String
  pub height : ℕ
  pub options : Json
  pub series : List (String × Option (List ℕ))

abbrev pub texts : List String → Items
texts [] = nil
texts (s ∷ ss) = cons (str s) (texts ss)

abbrev one : String → Json → Json
one name value = obj (field name value end)

unfoldable pub colors : List String
unfolding row_color
colors = map row_color severities

unfoldable pub options : List String → Json
unfolding colors
options categories = obj (
    field "chart"
      (obj (
        field "stacked" (bool true) (
          field "toolbar" (one "show" (bool false)) (
            field "fontFamily" (str "Outfit, sans-serif")
              (field "foreColor" (str "#98a2b3") end)))))
      (field "plotOptions"
        (one "bar" (obj (field "columnWidth" (str "60%") (field "borderRadius" (num 2) end))))
        (field "colors" (arr (texts colors)) (
          field "xaxis"
            (obj (
              field "categories" (arr (texts categories))
                (field "labels" (one "style" (one "fontSize" (str "11px"))) end)))
            (field "yaxis"
              (obj (
                field "title" (one "text" (str "detections"))
                  (field "labels" (one "style" (one "fontSize" (str "11px"))) end)))
              (field "legend" (one "position" (str "bottom")) (
                field "dataLabels" (one "enabled" (bool false)) (
                  field "grid" (one "borderColor" (str "#e4e7ec"))
                    (field "noData" (one "text" (str "No detections")) end)))))))))

-- `SEVERITIES.map((s, i) => ({ name: s, data: series.data[i] }))`, from the index `i`.
unfoldable pub named_rows : ℕ → List Severity → List (List ℕ) → List (String × Option (List ℕ))
named_rows i [] rows = []
named_rows i (s ∷ ss) rows = (severity_name s, get_elem? rows i) ∷ named_rows (suc i) ss rows

abbrev chart_of : Option Series → Option Chart
chart_of none = none
chart_of (some sr) = some (record {
  kind = "bar";
  height = 220;
  options = options sr.categories;
  series = named_rows 0 severities sr.rows;
})

-- `EventChart`, which shows nothing for no report.
unfoldable pub event_chart : Platform → List ThreatReport → Option Chart
unfolding options named_rows
event_chart P threats = chart_of (series P threats)

abbrev pub total : Option (List ℕ) → Option ℕ
total none = none
total (some row) = some (sum row)

abbrev pub summed : String × Option (List ℕ) → String × Option ℕ
summed row = (row.0, total row.1)

abbrev pub counted : (Severity → ℕ) → Severity → String × Option ℕ
counted f s = (severity_name s, some (f s))

-- The reports of a severity.
abbrev pub reports_of : List ThreatReport → Severity → ℕ
reports_of ts s = count (λ t. severity_eq t.detection.severity s) ts

named_rows-totals :
    (rows : List (List ℕ)) (f : Severity → ℕ)
    → length rows ≡ 4
    → map sum rows ≡ map f severities
    → map summed (named_rows 0 severities rows) ≡ map (counted f) severities
unfolding named_rows
named_rows-totals (a ∷ b ∷ c ∷ d ∷ []) f four e = cc
named_rows-totals _ f four e = absurd (omega (arith, four))

-- A member of an object, if it is one and has it.
abbrev pub inside : String → Option Json → Option Json
inside k (some (obj fs)) = member k fs
inside k _ = none

abbrev pub axis_labels : Json → Option Json
axis_labels v = inside "categories" (inside "xaxis" (some v))

-- One label for each minute, with the time of the minute.
pub record IsLabelling (P : Platform) (from n : ℕ) (labels : List String) : Type 0 where
  pub one_each : length labels ≡ n
  pub timed : (j : ℕ) → j < n → get_elem? labels j ≡ some (P.locale_minute ((from + j) * minute))

-- A named bar for each of the `n` minutes from the minute `from` on, as high as reports of the severity fall
-- in the minute.
abbrev pub bars : ℕ → ℕ → List ThreatReport → String → Severity → String × Option (List ℕ)
bars from n ts name s = (name, some (tab (cell from n ts s) 0 n))

-- What the chart shows of the reports.
pub record Depicts (P : Platform) (ts : List ThreatReport) (from n : ℕ) (c : Chart) : Type 0 where
  pub spanned : Spans ts from n
  pub labelled :
      (labels : List String) × (axis_labels c.options ≡ some (arr (texts labels)))
      × IsLabelling P from n labels
  pub barred :
      c.series
      ≡ bars from n ts "critical" critical
        ∷ bars from n ts "high" high
        ∷ bars from n ts "medium" medium
        ∷ bars from n ts "low" low
        ∷ []
  pub coloured :
      inside "colors" (some c.options)
      ≡ some (arr (texts ("#f04438" ∷ "#fd853a" ∷ "#fdb022" ∷ "#0ba5ec" ∷ [])))
  pub totals : map summed c.series ≡ map (counted (reports_of ts)) severities

options-axis_labels :
    (labels : List String) → axis_labels (options labels) ≡ some (arr (texts labels))
unfolding options member
options-axis_labels labels = refl

options-colors :
    (labels : List String)
    → inside "colors" (some (options labels))
      ≡ some (arr (texts ("#f04438" ∷ "#fd853a" ∷ "#fdb022" ∷ "#0ba5ec" ∷ [])))
unfolding options member colors row_color
options-colors labels = refl

named_rows-grid :
    (from n : ℕ) (ts : List ThreatReport)
    → named_rows 0 severities (grid n (cell from n ts))
      ≡ bars from n ts "critical" critical
        ∷ bars from n ts "high" high
        ∷ bars from n ts "medium" medium
        ∷ bars from n ts "low" low
        ∷ []
unfolding named_rows severity_name
named_rows-grid start n ts = refl

no_chart : (P : Platform) → event_chart P [] ≡ none
unfolding event_chart series
no_chart P = refl

module _ (P : Platform) (t : ThreatReport) (ts : List ThreatReport) where
  abbrev labels : List String
  labels = minute_labels P (from t ts) (width t ts)

  abbrev counts : List (List ℕ)
  counts = grid (width t ts) (cell (from t ts) (width t ts) (t ∷ ts))

  -- The rows add up, as every series of the memo does.
  counts-totals : (length counts ≡ 4) × (map sum counts ≡ map (reports_of (t ∷ ts)) severities)
  counts-totals =
      let (sr, e, drawn) = series-Draws P t ts in
      let same : sr.rows ≡ counts = let exact = series-exact t ts P in cc in
      (refl, ap (map sum) (sym same) ∙ drawn.totals)

  abbrev chart : Chart
  chart = record {
    kind = "bar";
    height = 220;
    options = options labels;
    series = named_rows 0 severities counts;
  }

  chart-Depicts : Depicts P (t ∷ ts) (from t ts) (width t ts) chart
  chart-Depicts = record {
    spanned = spans t ts;
    labelled = (
      labels,
      options-axis_labels labels,
      record {
        one_each = length-minute_labels P (from t ts) (width t ts);
        timed = λ j lt. labels-at P (from t ts) (width t ts) j lt;
      },
    );
    barred = named_rows-grid (from t ts) (width t ts) (t ∷ ts);
    coloured = options-colors labels;
    totals = named_rows-totals counts (reports_of (t ∷ ts)) counts-totals.0 counts-totals.1;
  }

  event_chart-chart : event_chart P (t ∷ ts) ≡ some chart
  unfolding event_chart
  event_chart-chart = ap chart_of (series-exact t ts P)

-- For no report there is no chart. For a list that is not empty there is one: it runs over whole minutes,
-- from the one of the earliest report to the one in which, or at whose end, the latest report falls. Its axis
-- has one label for each minute, with the time of the minute. It has four rows, named critical, high,
-- medium and low, in the colours that the options list in this order; a row has for each minute the number
-- of reports of its severity that fall in the minute, where the last minute takes the reports at its very
-- end too, and it adds up to the number of all reports of its severity.
pub event_chart-Depicts :
    (P : Platform)
    → (event_chart P [] ≡ none)
      × ((t : ThreatReport) (ts : List ThreatReport)
          → (from n : ℕ) × (c : Chart) × (event_chart P (t ∷ ts) ≡ some c)
            × Depicts P (t ∷ ts) from n c)
event_chart-Depicts P = (
  no_chart P,
  λ t ts. (from t ts, width t ts, chart P t ts, event_chart-chart P t ts, chart-Depicts P t ts),
)
