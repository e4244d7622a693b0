-- ===== src/View/Processes/Offers.antt =====
-- What the page of the processes offers and where it leads.
use guardian_os_ai.Base.{
  ℕ, ◌≡◌, refl, Bool, String, List, All, Any, length, ltb, arith, [], inl, inr, Bool-cases, ◌^^◌,
  append-nil,
}
use guardian_os_ai.Platform.{Platform}
use guardian_os_ai.Api.Types.{ThreatReport}
use guardian_os_ai.Context.Guardian.{Guardian}
use guardian_os_ai.Pages.Processes.{ProcRow, rows}
use guardian_os_ai.Pages.Processes.Linked.{IsLinked, rows-IsLinked}
use guardian_os_ai.View.Dom.{
  nodes, element_of, fragment, when, when_text, when_node, option_or, own_links, links, links_in,
  own_clicks, is_disabled, clicks, clicks_in,
}
use guardian_os_ai.View.Dom.Lists.{links-each-All, clicks-each_none}
use guardian_os_ai.View.Ui.{tone_badge, panel, given, page_header, page_meta, empty_state}
use guardian_os_ai.View.Processes.{table_row, processes_page}

-- The route of a report of the list.
abbrev pub LeadsToReport : List ThreatReport → String → Type 0
LeadsToReport threats route =
    (t : ThreatReport) × Any (λ u. u ≡ t) threats × (route ≡ "/threats/" ^^ t.report_id)

table_row-Leads :
    (now : ℕ) (threats : List ThreatReport) (row : ProcRow)
    → IsLinked threats row
    → All (LeadsToReport threats) (links (table_row now row))
unfolding table_row links links_in nodes element_of own_links option_or tone_badge
table_row-Leads now threats row (inl e) = rw e tt
table_row-Leads now threats row (inr (t, there_is, s, r)) = rw (s, r) ((t, there_is, refl), tt)

-- Every link of the page of the processes leads to a report of the state.
pub processes_page-Leads :
    (P : Platform) (now : ℕ) (g : Guardian) (suspicious_only : Bool)
    → All (LeadsToReport g.threats) (links (processes_page P now g suspicious_only))
unfolding processes_page links links_in nodes element_of fragment when when_text when_node own_links
    panel given page_header page_meta empty_state
processes_page-Leads P now g b =
    let shown = rows b g.events g.threats in
    let from_rows =
      links-each-All (table_row now) (LeadsToReport g.threats) (IsLinked g.threats)
        (table_row-Leads now g.threats) shown (rows-IsLinked b g.events g.threats) in
    elim (Bool-cases (ltb 0 (length shown))) [
      | inl e ↦ rw e (simp append-nil from_rows)
      | inr e ↦ rw e tt
    ]

table_row-Offers : (now : ℕ) (row : ProcRow) → clicks (table_row now row) ≡ []
unfolding table_row clicks clicks_in nodes element_of is_disabled own_clicks option_or tone_badge
table_row-Offers now row = ground arith

-- The page of the processes has no button: its check box is no click.
pub processes_page-Offers :
    (P : Platform) (now : ℕ) (g : Guardian) (suspicious_only : Bool)
    → clicks (processes_page P now g suspicious_only) ≡ []
unfolding processes_page clicks clicks_in nodes element_of fragment when when_text when_node
    is_disabled own_clicks panel given page_header page_meta empty_state
processes_page-Offers P now g b = elim (Bool-cases (ltb 0 (length (rows b g.events g.threats)))) [
  | inl e ↦
      rw (e, clicks-each_none (table_row now) (table_row-Offers now) (rows b g.events g.threats))
        refl
  | inr e ↦ rw e refl
]
