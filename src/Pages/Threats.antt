-- ===== src/Pages/Threats.antt =====
-- frontend/src/pages/Threats.tsx and ThreatDetail.tsx: the list that is shown and the report that is
-- selected. A filter is `none` for "all".
pub mod Listing
use guardian_os_ai.Base.{
  ℕ, Bool, String, List, [], ◌∷◌, Option, none, some, filter, find, any, sort_desc, str_eq, truthy,
  if◌then◌else◌,
}
use guardian_os_ai.Api.Types.{
  Severity, ThreatReport, ResponseAction, executed, severity_eq, status_eq,
}

abbrev pub by_time : ThreatReport → ℕ
by_time t = t.timestamp

abbrev pub keep_severity : Option Severity → List ThreatReport → List ThreatReport
keep_severity none list = list
keep_severity (some sev) list = filter (λ t. severity_eq t.detection.severity sev) list

-- The memo `sorted`.
unfoldable pub sorted : Option Severity → List ThreatReport → List ThreatReport
sorted wanted threats = keep_severity wanted (sort_desc by_time threats)

-- `reportId ? threats.find(…) : undefined`
unfoldable pub selected : Option String → List ThreatReport → Option ThreatReport
selected none threats = none
selected (some id) threats = if truthy id then find (λ t. str_eq t.report_id id) threats else none

-- `hasExecuted` of ThreatDetail.
unfoldable pub has_executed : ThreatReport → Bool
has_executed r = any (λ a. status_eq a.status executed) r.actions

-- The period of the effect of the page, which calls `refresh` while the page is mounted.
abbrev pub refresh_ms : ℕ
refresh_ms = 15000
