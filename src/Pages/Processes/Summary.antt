-- ===== src/Pages/Processes/Summary.antt =====
-- What the row of a process says: how often it was seen, when last, and of which report.
use mathlib.Core.Option
use native.Mathlib.Nat.{zero-add}
use guardian_os_ai.Base.{
  ap, Bool-cases, inl, inr, ℕ, ◌+◌, ◌≡◌, refl, ◌∙◌, String, List, [], ◌∷◌, Option, none, some,
  count, max, or_else, ◌==◌, if◌then◌else◌, arith,
}
use guardian_os_ai.Api.Types.{KernelEvent, ThreatReport, Severity}
use guardian_os_ai.Pages.Processes.{
  ProcRow, fresh_row, visit_event, visit_threat, add_events, add_threats, observed,
}
use guardian_os_ai.Pages.Processes.Rows.{find_row, find-with_row, visit_event-pid, visit_threat-pid}

-- The row of one process, followed through the loops.
fold_events : ℕ → List KernelEvent → Option ProcRow → Option ProcRow
fold_events p [] o = o
fold_events p (e ∷ es) o =
    fold_events p es
      (if e.pid == p then some (visit_event e (or_else o (fresh_row e.pid e.exe 0))) else o)

abbrev fresh_of : ThreatReport → ProcRow
fresh_of t = fresh_row t.detection.pid t.detection.exe t.timestamp

fold_threats : ℕ → List ThreatReport → Option ProcRow → Option ProcRow
fold_threats p [] o = o
fold_threats p (t ∷ ts) o =
    fold_threats p ts
      (if t.detection.pid == p then some (visit_threat t (or_else o (fresh_of t))) else o)

find-add_events :
    (p : ℕ) (es : List KernelEvent) (rs : List ProcRow)
    → find_row p (add_events es rs) ≡ fold_events p es (find_row p rs)
unfolding add_events fold_events
find-add_events p [] rs = refl
find-add_events p (e ∷ es) rs =
    find-add_events p es _
    ∙ rw
        (find-with_row e.pid (fresh_row e.pid e.exe 0) (visit_event e) (visit_event-pid e) refl p
          rs)
        refl

find-add_threats :
    (p : ℕ) (ts : List ThreatReport) (rs : List ProcRow)
    → find_row p (add_threats ts rs) ≡ fold_threats p ts (find_row p rs)
unfolding add_threats fold_threats
find-add_threats p [] rs = refl
find-add_threats p (t ∷ ts) rs =
    find-add_threats p ts _
    ∙ rw
        (find-with_row t.detection.pid (fresh_of t) (visit_threat t) (visit_threat-pid t) refl p rs)
        refl

-- What is read of a row; a process with no row was seen in no event.
abbrev pub events_of : Option ProcRow → ℕ
events_of none = 0
events_of (some row) = row.event_count

abbrev pub seen_of : Option ProcRow → ℕ
seen_of none = 0
seen_of (some row) = row.last_seen

abbrev pub severity_of : Option ProcRow → Option Severity
severity_of none = none
severity_of (some row) = row.severity

abbrev pub report_of : Option ProcRow → Option String
report_of none = none
report_of (some row) = row.report_id

-- The last report of a process in the list, and the latest of its times.
abbrev pub last_threat : ℕ → List ThreatReport → Option ThreatReport → Option ThreatReport
last_threat p [] d = d
last_threat p (t ∷ ts) d = last_threat p ts (if t.detection.pid == p then some t else d)

abbrev pub latest_event : ℕ → List KernelEvent → ℕ → ℕ
latest_event p [] m = m
latest_event p (e ∷ es) m = latest_event p es (if e.pid == p then max m e.timestamp else m)

abbrev pub latest_threat : ℕ → List ThreatReport → ℕ → ℕ
latest_threat p [] m = m
latest_threat p (t ∷ ts) m =
    latest_threat p ts (if t.detection.pid == p then max m t.timestamp else m)

-- The events of a process are counted and give its last time; no report shows yet.
record FromEvents (p : ℕ) (es : List KernelEvent) (o o' : Option ProcRow) : Type 0 where
  counted : events_of o' ≡ events_of o + count (λ e. e.pid == p) es
  latest : seen_of o' ≡ latest_event p es (seen_of o)
  no_severity : severity_of o' ≡ severity_of o
  no_report : report_of o' ≡ report_of o

seen-visit_event :
    (e : KernelEvent) (o : Option ProcRow)
    → seen_of (some (visit_event e (or_else o (fresh_row e.pid e.exe 0))))
      ≡ max (seen_of o) e.timestamp
unfolding visit_event
seen-visit_event e none = ground arith
seen-visit_event e (some row) = ground arith

events-visit_event :
    (e : KernelEvent) (o : Option ProcRow)
    → events_of (some (visit_event e (or_else o (fresh_row e.pid e.exe 0)))) ≡ events_of o + 1
unfolding visit_event
events-visit_event e none = ground arith
events-visit_event e (some row) = ground arith

report-visit_event :
    (e : KernelEvent) (o : Option ProcRow)
    → (severity_of (some (visit_event e (or_else o (fresh_row e.pid e.exe 0)))) ≡ severity_of o)
      × (report_of (some (visit_event e (or_else o (fresh_row e.pid e.exe 0)))) ≡ report_of o)
unfolding visit_event
report-visit_event e none = ground arith
report-visit_event e (some row) = ground arith

fold_events-FromEvents :
    (p : ℕ) (es : List KernelEvent) (o : Option ProcRow) → FromEvents p es o (fold_events p es o)
unfolding fold_events
fold_events-FromEvents p [] o = record {
  counted = omega arith;
  latest = refl;
  no_severity = refl;
  no_report = refl;
}
fold_events-FromEvents p (e ∷ es) o = elim (Bool-cases (e.pid == p)) [
  | inl same ↦
      let ih =
        fold_events-FromEvents p es (some (visit_event e (or_else o (fresh_row e.pid e.exe 0)))) in
      let (severity_same, report_same) = report-visit_event e o in
      record {
        counted = rw same (omega (arith, ih.counted, events-visit_event e o));
        latest = rw same (ih.latest ∙ ap (latest_event p es) (seen-visit_event e o));
        no_severity = rw same (ih.no_severity ∙ severity_same);
        no_report = rw same (ih.no_report ∙ report_same);
      }
  | inr other ↦
      let ih = fold_events-FromEvents p es o in
      record {
        counted = rw other ih.counted;
        latest = rw other ih.latest;
        no_severity = rw other ih.no_severity;
        no_report = rw other ih.no_report;
      }
]

-- The reports of a process leave the count, and the last of them gives the severity and the link.
record FromThreats (p : ℕ) (ts : List ThreatReport) (o o' : Option ProcRow) : Type 0 where
  counted : events_of o' ≡ events_of o
  latest : seen_of o' ≡ latest_threat p ts (seen_of o)
  shown :
      (d : Option ThreatReport)
      → severity_of o ≡ Option.map (λ t. t.detection.severity) d
      → report_of o ≡ Option.map (λ t. t.report_id) d
      → (severity_of o' ≡ Option.map (λ t. t.detection.severity) (last_threat p ts d))
        × (report_of o' ≡ Option.map (λ t. t.report_id) (last_threat p ts d))

seen-visit_threat :
    (t : ThreatReport) (o : Option ProcRow)
    → seen_of (some (visit_threat t (or_else o (fresh_of t)))) ≡ max (seen_of o) t.timestamp
unfolding visit_threat
seen-visit_threat t none = ground arith
seen-visit_threat t (some row) = ground arith

events-visit_threat :
    (t : ThreatReport) (o : Option ProcRow)
    → events_of (some (visit_threat t (or_else o (fresh_of t)))) ≡ events_of o
unfolding visit_threat
events-visit_threat t none = refl
events-visit_threat t (some row) = refl

fold_threats-FromThreats :
    (p : ℕ) (ts : List ThreatReport) (o : Option ProcRow) → FromThreats p ts o (fold_threats p ts o)
unfolding fold_threats visit_threat
fold_threats-FromThreats p [] o = record { counted = refl; latest = refl; shown = λ d s r. (s, r) }
fold_threats-FromThreats p (t ∷ ts) o = elim (Bool-cases (t.detection.pid == p)) [
  | inl same ↦
      let ih = fold_threats-FromThreats p ts (some (visit_threat t (or_else o (fresh_of t)))) in
      record {
        counted = rw same (ih.counted ∙ events-visit_threat t o);
        latest = rw same (ih.latest ∙ ap (latest_threat p ts) (seen-visit_threat t o));
        shown = λ d s r. rw same (ih.shown (some t) refl refl);
      }
  | inr other ↦
      let ih = fold_threats-FromThreats p ts o in
      record {
        counted = rw other ih.counted;
        latest = rw other ih.latest;
        shown = λ d s r. rw other (ih.shown d s r);
      }
]

-- What the row of a process says of the events and the reports that it was made from.
pub record Summarises (p : ℕ) (events : List KernelEvent) (threats : List ThreatReport)
    (row : Option ProcRow) : Type 0 where
  pub counted : events_of row ≡ count (λ e. e.pid == p) events
  pub latest : seen_of row ≡ latest_threat p threats (latest_event p events 0)
  pub severity :
      severity_of row ≡ Option.map (λ t. t.detection.severity) (last_threat p threats none)
  pub report : report_of row ≡ Option.map (λ t. t.report_id) (last_threat p threats none)

-- The row of a process counts its events, shows the latest time of its events and reports, and shows
-- the severity and the id of the last of its reports in the list, or none if it has no report.
pub observed-Summarises :
    (p : ℕ) (events : List KernelEvent) (threats : List ThreatReport)
    → Summarises p events threats (find_row p (observed events threats))
unfolding observed
observed-Summarises p events threats =
    let first = fold_events-FromEvents p events none in
    let second = fold_threats-FromThreats p threats (fold_events p events none) in
    let both = second.shown none first.no_severity first.no_report in
    rw (find-add_threats p threats (add_events events []), find-add_events p events [])
      (record {
        counted = second.counted ∙ first.counted ∙ zero-add _;
        latest = second.latest ∙ ap (latest_threat p threats) first.latest;
        severity = both.0;
        report = both.1;
      })
