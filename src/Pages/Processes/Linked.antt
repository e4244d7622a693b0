-- ===== src/Pages/Processes/Linked.antt =====
-- The severity and the link of a row of the process table, and the report that they come from.
use guardian_os_ai.Base.{
  ℕ, ◌≡◌, ◌⊎◌, refl, ◌∙◌, Bool, true, false, List, [], ◌∷◌, none, some, All-filter, All-sort_desc,
  All-self, All, Any, ltb, ◌==◌, Bool-cases, inl, inr,
}
use guardian_os_ai.Api.Types.{KernelEvent, ThreatReport}
use guardian_os_ai.Pages.Processes.{
  ProcRow, with_row, fresh_row, visit_event, visit_threat, add_events, add_threats, observed,
  is_suspicious, by_last_seen, keep_suspicious, rows,
}

-- A row shows no severity, or the severity and the id of one report of the list.
abbrev pub IsLinked : List ThreatReport → ProcRow → Type 0
IsLinked threats row =
    (row.severity ≡ none)
    ⊎ ((t : ThreatReport) × Any (λ u. u ≡ t) threats
        × (row.severity ≡ some t.detection.severity)
        × (row.report_id ≡ some t.report_id))

module _ (Q : ProcRow → Type 0) (pid : ℕ) (fresh : ProcRow) (visit : ProcRow → ProcRow)
    (keeps : (row : ProcRow) → Q row → Q (visit row)) (begins : Q fresh) where
  All-with_row : (rs : List ProcRow) → All Q rs → All Q (with_row pid fresh visit rs)
  unfolding with_row
  All-with_row [] h = (keeps fresh begins, tt)
  All-with_row (row ∷ rs) (h, k) = elim (Bool-cases (row.pid == pid)) [
    | inl e ↦ rw e (keeps row h, k)
    | inr e ↦ rw e (h, All-with_row rs k)
  ]

visit_event-report :
    (e : KernelEvent) (row : ProcRow)
    → ((visit_event e row).severity ≡ row.severity)
      × ((visit_event e row).report_id ≡ row.report_id)
unfolding visit_event
visit_event-report e row = elim (Bool-cases (ltb row.last_seen e.timestamp)) [
  | inl h ↦ rw h (refl, refl)
  | inr h ↦ rw h (refl, refl)
]

visit_event-IsLinked :
    (ts : List ThreatReport) (e : KernelEvent) (row : ProcRow)
    → IsLinked ts row
    → IsLinked ts (visit_event e row)
visit_event-IsLinked ts e row (inl h) = inl ((visit_event-report e row).0 ∙ h)
visit_event-IsLinked ts e row (inr (t, there_is, s, r)) =
    let (same_severity, same_report) = visit_event-report e row in
    inr (t, there_is, same_severity ∙ s, same_report ∙ r)

add_events-IsLinked :
    (ts : List ThreatReport) (es : List KernelEvent) (rs : List ProcRow)
    → All (IsLinked ts) rs
    → All (IsLinked ts) (add_events es rs)
unfolding add_events
add_events-IsLinked ts [] rs h = h
add_events-IsLinked ts (e ∷ es) rs h = add_events-IsLinked ts es _ (
    All-with_row (IsLinked ts) e.pid (fresh_row e.pid e.exe 0) (visit_event e)
      (visit_event-IsLinked ts e) (inl refl) rs h)

visit_threat-IsLinked :
    (all : List ThreatReport) (t : ThreatReport) (row : ProcRow)
    → Any (λ u. u ≡ t) all
    → IsLinked all (visit_threat t row)
unfolding visit_threat
visit_threat-IsLinked all t row there_is = inr (t, there_is, refl, refl)

add_threats-IsLinked :
    (all ts : List ThreatReport) (rs : List ProcRow)
    → All (λ t. Any (λ u. u ≡ t) all) ts
    → All (IsLinked all) rs
    → All (IsLinked all) (add_threats ts rs)
unfolding add_threats
add_threats-IsLinked all [] rs among h = h
add_threats-IsLinked all (t ∷ ts) rs (there_is, among) h = add_threats-IsLinked all ts _ among (
    All-with_row (IsLinked all) t.detection.pid
      (fresh_row t.detection.pid t.detection.exe t.timestamp) (visit_threat t)
      (λ row k. visit_threat-IsLinked all t row there_is) (inl refl) rs h)

keep_suspicious-IsLinked :
    (ts : List ThreatReport) (b : Bool) (rs : List ProcRow)
    → All (IsLinked ts) rs
    → All (IsLinked ts) (keep_suspicious b rs)
keep_suspicious-IsLinked ts true rs h = All-filter (IsLinked ts) is_suspicious rs h
keep_suspicious-IsLinked ts false rs h = h

pub rows-IsLinked :
    (b : Bool) (events : List KernelEvent) (threats : List ThreatReport)
    → All (IsLinked threats) (rows b events threats)
unfolding rows observed
rows-IsLinked b events threats = All-sort_desc (IsLinked threats) by_last_seen _ (
    keep_suspicious-IsLinked threats b _ (
      add_threats-IsLinked threats threats _ (All-self threats)
        (add_events-IsLinked threats events [] tt)))
