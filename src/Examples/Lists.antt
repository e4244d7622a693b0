-- ===== src/Examples/Lists.antt =====
-- The figures, the lists and the chart of the pages.
use guardian_os_ai.Base.{
  ℕ, ◌+◌, ◌*◌, ◌-◌, ◌≤◌, ◌<◌, ◌≡◌, refl, ◌↔◌, Bool, true, false, List, [], ◌∷◌, none, some, here,
  length, count, filter, Any, IsView,
}
use guardian_os_ai.Api.Types.{Severity, low, executed, exec, ThreatReport, KernelEvent, severity_eq}
use guardian_os_ai.Format.{format_relative, threat_level, severity_counts, count_of, second}
use guardian_os_ai.Format.Relative.{Shows, format_relative-Shows}
use guardian_os_ai.Format.Posture.{Explains, threat_level-Explains, total, severity_counts_exact}
use guardian_os_ai.Pages.Chart.Drawn.{Chart, event_chart, Depicts, event_chart-Depicts}
use guardian_os_ai.Pages.Threats.{by_time}
use guardian_os_ai.Pages.Threats
use guardian_os_ai.Pages.Threats.Listing
use guardian_os_ai.Pages.Threats.Listing.{sorted-IsView, selected-some}
use guardian_os_ai.Pages.Response.{ActionRow, by_ts, row_of, all_rows}
use guardian_os_ai.Pages.Response
use guardian_os_ai.Pages.Response.Rows
use guardian_os_ai.Pages.Response.Rows.{total_actions, action_rows-IsView, all_rows_complete}
use guardian_os_ai.Pages.Processes.{by_last_seen, observed}
use guardian_os_ai.Pages.Processes
use guardian_os_ai.Pages.Processes.Rows as ProcessRows
use guardian_os_ai.Pages.Processes.Rows.{find_row, is_shown, process_rows-IsView}
use guardian_os_ai.Pages.Processes.Summary.{Summarises, observed-Summarises}
use guardian_os_ai.Pages.Overview.{suspicious_processes, suspect_of}
use guardian_os_ai.Pages.Overview.Suspects
use guardian_os_ai.Pages.Overview.Firsts.{suspicious_processes_lem}
use guardian_os_ai.Pages.Kernel.{filtered}
use guardian_os_ai.Pages.Kernel.Search.{Passes, filtered-Passes}
use guardian_os_ai.Examples.Data.{browser, newer, older, event, action}

abbrev reports : List ThreatReport
reports = newer ∷ older ∷ []

abbrev events : List KernelEvent
events = event ∷ []

format_relative-Shows_example :
    (delta : ℕ) × Shows (format_relative 60000000 180000000) delta
    × (delta * second ≤ 180000000 - 60000000 + 500000)
    × (180000000 - 60000000 + 500000 < (delta + 1) * second)
format_relative-Shows_example = format_relative-Shows 60000000 180000000

threat_level-Explains_example : Explains reports false (threat_level reports false)
threat_level-Explains_example = threat_level-Explains reports false

severity_counts_exact_example :
    ((s : Severity)
      → count_of (severity_counts reports) s
        ≡ count (λ t. severity_eq t.detection.severity s) reports)
    × (total (severity_counts reports) ≡ 2)
severity_counts_exact_example = severity_counts_exact reports

event_chart-Depicts_example :
    (event_chart browser [] ≡ none)
    × ((t : ThreatReport) (ts : List ThreatReport)
        → (from n : ℕ) × (c : Chart) × (event_chart browser (t ∷ ts) ≡ some c)
          × Depicts browser (t ∷ ts) from n c)
event_chart-Depicts_example = event_chart-Depicts browser

sorted-IsView_example :
    IsView by_time (Listing.is_wanted (some low)) reports (Threats.sorted (some low) reports)
sorted-IsView_example = sorted-IsView (some low) reports

action_rows-IsView_example :
    IsView by_ts
      (Rows.is_wanted (some executed))
      (all_rows reports)
      (Response.rows (some executed) reports)
action_rows-IsView_example = action_rows-IsView (some executed) reports

all_rows_complete_example :
    (length (all_rows reports) ≡ total_actions reports)
    × Any (λ r. r ≡ row_of newer 1 (action executed)) (all_rows reports)
all_rows_complete_example = all_rows_complete reports newer 1 (action executed) (here refl) refl

process_rows-IsView_example :
    IsView by_last_seen
      (is_shown true)
      (observed events reports)
      (Processes.rows true events reports)
    × ProcessRows.IsDistinct (observed events reports)
process_rows-IsView_example = process_rows-IsView true events reports

observed-Summarises_example : Summarises 7 events reports (find_row 7 (observed events reports))
observed-Summarises_example = observed-Summarises 7 events reports

suspicious_processes_lem_example :
    (suspicious_processes reports ≡ suspect_of newer ∷ [])
    × (length (suspicious_processes reports) ≤ 8)
    × Suspects.IsDistinct (suspicious_processes reports)
suspicious_processes_lem_example = suspicious_processes_lem reports

filtered-Passes_example :
    (test : KernelEvent → Bool) × ((e : KernelEvent)
      → (test e ≡ true) ↔ Passes browser (some exec) " 7 " e)
    × (filtered browser (some exec) " 7 " events ≡ filter test events)
filtered-Passes_example = filtered-Passes browser (some exec) " 7 " events
