-- ===== src/App/Linkable.antt =====
-- The reports that a link can lead to, and that the lists of the pages show only such.
use guardian_os_ai.Base.{
  ℕ, ◌≡◌, true, String, List, [], ◌∷◌, Option, none, some, All, Any, All-imp, Any-imp, All-self,
  All-at, All-append, All-filter, All-sort_desc, ◌+◌, ap,
}
use guardian_os_ai.Api.Types.{ThreatReport, ResponseAction, ActionStatus, Severity}
use guardian_os_ai.Pages.Response.{ActionRow, push_actions, all_rows, keep_status, rows, by_ts}
use guardian_os_ai.Pages.Threats.{sorted, keep_severity, by_time}
use guardian_os_ai.App.Routing.{is_segment}

-- The ids of the reports stand for themselves in a path, as the hexadecimal ids of the engine do.
abbrev pub ArePlain : List ThreatReport → Type 0
ArePlain reports = All (λ t. is_segment t.report_id ≡ true) reports

module _ (reports : List ThreatReport) where
  -- The id is plain, and is that of a report of the state.
  abbrev pub IsLinkable : String → Type 0
  IsLinkable id = (is_segment id ≡ true) × Any (λ u. u.report_id ≡ id) reports

  pub listed-IsLinkable :
      (t : ThreatReport) → ArePlain reports → Any (λ u. u ≡ t) reports → IsLinkable t.report_id
  listed-IsLinkable t plain there_is = (
    All-at (λ u. is_segment u.report_id ≡ true) reports plain there_is,
    Any-imp (λ u e. ap (λ v. v.report_id) e) there_is,
  )

  abbrev pub IsLinkableReport : ThreatReport → Type 0
  IsLinkableReport t = IsLinkable t.report_id

  abbrev pub IsLinkableRow : ActionRow → Type 0
  IsLinkableRow row = IsLinkable row.report_id

  pub reports-AreLinkable : ArePlain reports → All IsLinkableReport reports
  reports-AreLinkable plain =
      All-imp (λ t there_is. listed-IsLinkable t plain there_is) reports (All-self reports)

  keep_severity-AreLinkable :
      (wanted : Option Severity) (ts : List ThreatReport)
      → All IsLinkableReport ts
      → All IsLinkableReport (keep_severity wanted ts)
  keep_severity-AreLinkable none ts h = h
  keep_severity-AreLinkable (some sev) ts h = All-filter IsLinkableReport _ ts h

  pub sorted-AreLinkable :
      (wanted : Option Severity) → ArePlain reports → All IsLinkableReport (sorted wanted reports)
  unfolding sorted
  sorted-AreLinkable wanted plain =
      keep_severity-AreLinkable wanted _
        (All-sort_desc IsLinkableReport by_time reports (reports-AreLinkable plain))

  push_actions-AreLinkable :
      (t : ThreatReport) (i : ℕ) (actions : List ResponseAction)
      → IsLinkableReport t
      → All IsLinkableRow (push_actions t i actions)
  unfolding push_actions
  push_actions-AreLinkable t i [] h = tt
  push_actions-AreLinkable t i (a ∷ actions) h = (h, push_actions-AreLinkable t (i + 1) actions h)

  all_rows-AreLinkable :
      (ts : List ThreatReport) → All IsLinkableReport ts → All IsLinkableRow (all_rows ts)
  unfolding all_rows
  all_rows-AreLinkable [] h = tt
  all_rows-AreLinkable (t ∷ ts) (h, k) =
      All-append IsLinkableRow _ _ (push_actions-AreLinkable t 0 t.actions h)
        (all_rows-AreLinkable ts k)

  keep_status-AreLinkable :
      (wanted : Option ActionStatus) (list : List ActionRow)
      → All IsLinkableRow list
      → All IsLinkableRow (keep_status wanted list)
  keep_status-AreLinkable none list h = h
  keep_status-AreLinkable (some status) list h = All-filter IsLinkableRow _ list h

  pub rows-AreLinkable :
      (wanted : Option ActionStatus) → ArePlain reports → All IsLinkableRow (rows wanted reports)
  unfolding rows
  rows-AreLinkable wanted plain = keep_status-AreLinkable wanted _ (
      All-sort_desc IsLinkableRow by_ts _
        (all_rows-AreLinkable reports (reports-AreLinkable plain)))
