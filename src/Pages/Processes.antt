-- ===== src/Pages/Processes.antt =====
-- frontend/src/pages/Processes.tsx: a row for each process id, from the events and then the reports.
-- The `Map` is the list of its rows in the order of insertion, each keyed by its `pid`.
pub mod Rows
pub mod Summary
pub mod Linked
use guardian_os_ai.Base.{
  ℕ, ◌+◌, Bool, true, false, String, List, [], ◌∷◌, ◌++◌, Option, none, some, any, filter,
  sort_desc, str_eq, ltb, ◌==◌, if◌then◌else◌,
}
use guardian_os_ai.Api.Types.{KernelEvent, ThreatReport, Severity, kind_name}

pub record ProcRow : Type 0 where
  pub pid : ℕ
  pub exe : String
  pub event_count : ℕ
  pub last_seen : ℕ
  pub severity : Option Severity
  pub report_id : Option String
  pub kinds : List String

-- `kinds.add(kind)`
unfoldable pub add_kind : String → List String → List String
add_kind kind kinds = if any (str_eq kind) kinds then kinds else kinds ++ kind ∷ []

-- `byPid.get(pid) ?? fresh`, changed by `visit` and written back: a row keeps its place.
unfoldable pub with_row : ℕ → ProcRow → (ProcRow → ProcRow) → List ProcRow → List ProcRow
with_row pid fresh visit [] = visit fresh ∷ []
with_row pid fresh visit (row ∷ rows) =
    let rest = with_row pid fresh visit rows in
    if row.pid == pid then visit row ∷ rows else row ∷ rest

abbrev pub fresh_row : ℕ → String → ℕ → ProcRow
fresh_row pid exe last_seen = record {
  pid = pid;
  exe = exe;
  event_count = 0;
  last_seen = last_seen;
  severity = none;
  report_id = none;
  kinds = [];
}

-- The body of the loop over the events.
unfoldable pub visit_event : KernelEvent → ProcRow → ProcRow
unfolding add_kind
visit_event e row =
    let counted = record row {
      event_count = row.event_count + 1;
      kinds = add_kind (kind_name e.kind) row.kinds;
    } in
    if ltb row.last_seen e.timestamp
    then record counted { last_seen = e.timestamp; exe = e.exe }
    else counted

-- The body of the loop over the reports.
unfoldable pub visit_threat : ThreatReport → ProcRow → ProcRow
visit_threat t row = record row {
  severity = some t.detection.severity;
  report_id = some t.report_id;
  last_seen = if ltb row.last_seen t.timestamp then t.timestamp else row.last_seen;
}

unfoldable pub add_events : List KernelEvent → List ProcRow → List ProcRow
unfolding with_row visit_event
add_events [] rows = rows
add_events (e ∷ es) rows =
    add_events es (with_row e.pid (fresh_row e.pid e.exe 0) (visit_event e) rows)

unfoldable pub add_threats : List ThreatReport → List ProcRow → List ProcRow
unfolding with_row visit_threat
add_threats [] rows = rows
add_threats (t ∷ ts) rows = add_threats ts (
    with_row t.detection.pid (fresh_row t.detection.pid t.detection.exe t.timestamp)
      (visit_threat t) rows)

-- The table before it is filtered and sorted.
unfoldable pub observed : List KernelEvent → List ThreatReport → List ProcRow
unfolding add_events add_threats
observed events threats = add_threats threats (add_events events [])

abbrev pub is_suspicious : ProcRow → Bool
is_suspicious row = elim (row.severity) [ some s ↦ true | none ↦ false ]

abbrev pub by_last_seen : ProcRow → ℕ
by_last_seen row = row.last_seen

abbrev pub keep_suspicious : Bool → List ProcRow → List ProcRow
keep_suspicious suspicious_only list = if suspicious_only then filter is_suspicious list else list

-- The memo `rows`.
unfoldable pub rows : Bool → List KernelEvent → List ThreatReport → List ProcRow
unfolding observed
rows suspicious_only events threats =
    sort_desc by_last_seen (keep_suspicious suspicious_only (observed events threats))

-- The period of the effect of the page, which calls `refresh` while the page is mounted.
abbrev pub refresh_ms : ℕ
refresh_ms = 10000
