-- ===== src/View/Analysis/Offers.antt =====
-- What the page of the analyses offers.
use guardian_os_ai.Base.{
  ℕ, ◌≡◌, refl, Bool, String, [], ◌∷◌, ◌++◌, Option, none, some, map, append-nil, length, ltb, inl,
  inr, Bool-cases,
}
use guardian_os_ai.Platform.{Platform}
use guardian_os_ai.Api.Types.{ThreatReport}
use guardian_os_ai.Context.Guardian.{Guardian}
use guardian_os_ai.Pages.Analysis.{sorted, report}
use guardian_os_ai.View.Dom.{
  Intent, nodes, element_of, fragment, when, when_text, when_node, option_or, is_disabled,
  own_clicks, clicks, clicks_in, own_links, links, links_in, select_report,
}
use guardian_os_ai.View.Dom.Lists.{links-each_none, clicks-each_one, map_nothing}
use guardian_os_ai.View.Ui.{tone_badge, panel, given, page_header, page_meta, empty_state}
use guardian_os_ai.View.Ui.Silent.{empty_state-Leads}
use guardian_os_ai.View.Detail.Leads.{threat_detail-Leads}
use guardian_os_ai.View.Detail.{threat_detail}
use guardian_os_ai.View.Detail.Offers.{offered, threat_detail-Offers}
use guardian_os_ai.View.Analysis.{report_item, analysis_page}

abbrev pub selects : ThreatReport → Intent
selects t = select_report t.report_id

report_item-Selects :
    (P : Platform) (now : ℕ) (shown : Option ThreatReport) (t : ThreatReport)
    → clicks (report_item P now shown t) ≡ selects t ∷ []
unfolding report_item clicks clicks_in nodes element_of is_disabled own_clicks tone_badge
report_item-Selects P now shown t = refl

analysed-Offers :
    (P : Platform) (now : ℕ) (g : Guardian) (busy : ℕ → Bool) (labelling : Bool)
    (o : Option ThreatReport)
    → clicks (
        option_or o
          (λ r. threat_detail P now g busy labelling r)
          (panel P none none none "" (empty_state "No report selected" none [] ∷ [])))
      ≡ offered o busy labelling
unfolding option_or offered panel given clicks clicks_in nodes element_of fragment when when_text
    when_node is_disabled own_clicks empty_state
analysed-Offers P now g busy labelling none = refl
analysed-Offers P now g busy labelling (some r) = threat_detail-Offers P now g busy labelling r

-- A click in the page of the analyses selects one of the reports, newest first, or is one that the view
-- of the displayed report offers.
pub analysis_page-Offers :
    (P : Platform) (now : ℕ) (g : Guardian) (busy : ℕ → Bool) (labelling : Bool)
    (selected_id : Option String)
    → clicks (analysis_page P now g busy labelling selected_id)
      ≡ map selects (sorted g.threats) ++ offered (report selected_id g.threats) busy labelling
unfolding analysis_page clicks clicks_in nodes element_of fragment when when_text when_node
    is_disabled own_clicks panel given page_header page_meta empty_state
analysis_page-Offers P now g busy labelling selected_id =
    let shown = report selected_id g.threats in
    rw (analysed-Offers P now g busy labelling shown)
      (elim (Bool-cases (ltb 0 (length (sorted g.threats)))) [
        | inl e ↦
            rw
              (
                e,
                clicks-each_one (report_item P now shown) selects (report_item-Selects P now shown)
                    (sorted g.threats),
              )
              (simp append-nil)
        | inr e ↦ rw (e, map_nothing selects (sorted g.threats) e) (simp append-nil)
      ])

report_item-Leads :
    (P : Platform) (now : ℕ) (shown : Option ThreatReport) (t : ThreatReport)
    → links (report_item P now shown t) ≡ []
unfolding report_item links links_in nodes element_of own_links tone_badge
report_item-Leads P now shown t = refl

analysed-Leads :
    (P : Platform) (now : ℕ) (g : Guardian) (busy : ℕ → Bool) (labelling : Bool)
    (o : Option ThreatReport)
    → links (
        option_or o
          (λ r. threat_detail P now g busy labelling r)
          (panel P none none none "" (empty_state "No report selected" none [] ∷ [])))
      ≡ []
unfolding option_or panel given links links_in nodes element_of when when_node own_links
analysed-Leads P now g busy labelling none = rw empty_state-Leads refl
analysed-Leads P now g busy labelling (some r) = threat_detail-Leads P now g busy labelling r

-- The page of the analyses has no link.
pub analysis_page-Leads :
    (P : Platform) (now : ℕ) (g : Guardian) (busy : ℕ → Bool) (labelling : Bool)
    (selected_id : Option String)
    → links (analysis_page P now g busy labelling selected_id) ≡ []
unfolding analysis_page links links_in nodes element_of fragment when when_text when_node own_links
    panel given page_header page_meta
analysis_page-Leads P now g busy labelling selected_id =
    let shown = report selected_id g.threats in
    rw (analysed-Leads P now g busy labelling shown)
      (elim (Bool-cases (ltb 0 (length (sorted g.threats)))) [
        | inl e ↦
            rw
              (
                e,
                links-each_none (report_item P now shown) (report_item-Leads P now shown)
                    (sorted g.threats),
              )
              refl
        | inr e ↦ rw (e, empty_state-Leads) refl
      ])
