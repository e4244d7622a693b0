-- ===== src/Pages/Threats/Listing.antt =====
-- The list of the Threats page, and the report that it selects.
use guardian_os_ai.Base.{
  ◌≡◌, refl, sym, ap, Bool, true, String, List, [], ◌∷◌, Option, none, some, filter, find,
  sort_desc, IsView, filter-sort_desc-IsView, filter-true, truthy, str_eq, arith, inl, inr,
  Bool-cases, eq_iff, Any, here, there,
}
use guardian_os_ai.Api.Types.{Severity, ThreatReport, severity_eq}
use guardian_os_ai.Pages.Threats.{by_time, keep_severity, sorted, selected}

-- Whether a report passes the filter.
abbrev pub is_wanted : Option Severity → ThreatReport → Bool
is_wanted none t = true
is_wanted (some sev) t = severity_eq t.detection.severity sev

keep_severity_lem :
    (wanted : Option Severity) (ts : List ThreatReport)
    → keep_severity wanted ts ≡ filter (is_wanted wanted) ts
keep_severity_lem none ts = sym (filter-true ts)
keep_severity_lem (some sev) ts = refl

-- The list shows exactly the reports of the wanted severity, all of them for "all": newest first, and
-- reports of one time in the order in which the state holds them.
pub sorted-IsView :
    (wanted : Option Severity) (threats : List ThreatReport)
    → IsView by_time (is_wanted wanted) threats (sorted wanted threats)
unfolding sorted
sorted-IsView wanted threats =
    rw (keep_severity_lem wanted (sort_desc by_time threats))
      (filter-sort_desc-IsView by_time (is_wanted wanted) threats)

find-some :
    (id : String) (ts : List ThreatReport) {t : ThreatReport}
    → find (λ r. str_eq r.report_id id) ts ≡ some t
    → (t.report_id ≡ id) × Any (λ r. r ≡ t) ts
find-some id [] e = cc
find-some id (r ∷ rs) {t} e = elim (Bool-cases (str_eq r.report_id id)) [
  | inl same ↦
      let here_is : r ≡ t = ground arith in
      (rw (← here_is) ((eq_iff r.report_id id).0 same), here here_is)
  | inr other ↦ let (named, found) = find-some id rs (ground arith) in (named, there found)
]

-- A report that the page details is one of the state, and has the id of the route, which is not
-- empty: the filter plays no part.
pub selected-some :
    (route : Option String) (threats : List ThreatReport) {t : ThreatReport}
    → selected route threats ≡ some t
    → (route ≡ some t.report_id) × (truthy t.report_id ≡ true) × Any (λ r. r ≡ t) threats
unfolding selected
selected-some none threats e = cc
selected-some (some id) threats {t} e = elim (Bool-cases (truthy id)) [
  | inl named ↦
      let (same, found) = find-some id threats (ground arith) in
      (ap some (sym same), rw same named, found)
  | inr empty ↦ absurd (ground arith)
]
