-- ===== src/View/Threats/Offers.antt =====
-- What the page of the threats offers and where it leads.
use guardian_os_ai.Base.{
  ◌^^◌, ℕ, ◌≡◌, refl, Bool, String, List, [], ◌∷◌, ◌++◌, Option, none, some, map, append-nil,
  length, ltb, inl, inr, Bool-cases,
}
use guardian_os_ai.Platform.{Platform}
use guardian_os_ai.Api.Types.{Severity, ThreatReport}
use guardian_os_ai.Format.{severity_order}
use guardian_os_ai.Context.Guardian.{Guardian}
use guardian_os_ai.Pages.Threats.{sorted, selected}
use guardian_os_ai.View.Dom.{
  text, class, nodes, element_of, fragment, when, when_text, when_node, option_or, is_disabled,
  own_clicks, clicks, clicks_in, own_links, links, links_in, filter_severity,
}
use guardian_os_ai.View.Dom.Lists.{
  links-each_one, links-when_text, map_nothing, links-each_none, clicks-each_none, clicks-each_one,
  clicks-when_text,
}
use guardian_os_ai.View.Ui.{tone_badge, panel, given, page_header, page_meta, empty_state}
use guardian_os_ai.View.Ui.Silent.{empty_state-Leads}
use guardian_os_ai.View.Detail.Leads.{threat_detail-Leads}
use guardian_os_ai.View.Detail.{threat_detail}
use guardian_os_ai.View.Detail.Offers.{threat_detail-Offers, offered}
use guardian_os_ai.View.Threats.{filter_button, report_item, threats_page}

-- The filters: "all" and each severity.
abbrev pub filters : List (Option Severity)
filters = none ∷ map (λ s. some s) severity_order

filter_button-Offers :
    (wanted s : Option Severity) → clicks (filter_button wanted s) ≡ filter_severity s ∷ []
unfolding filter_button clicks clicks_in nodes element_of is_disabled own_clicks
filter_button-Offers wanted s = refl

report_item-Offers :
    (P : Platform) (now : ℕ) (id : Option String) (t : ThreatReport)
    → clicks (report_item P now id t) ≡ []
unfolding report_item clicks clicks_in nodes element_of is_disabled own_clicks tone_badge
report_item-Offers P now id t = refl

detail-Offers :
    (P : Platform) (now : ℕ) (g : Guardian) (busy : ℕ → Bool) (labelling : Bool)
    (o : Option ThreatReport)
    → clicks (
        option_or o
          (λ r. threat_detail P now g busy labelling r)
          (panel P none none none "" (
            empty_state "Select a report"
              (some
                "Choose a report from the list to inspect its AI analysis, evidence and response actions.")
              []
            ∷ [])))
      ≡ offered o busy labelling
unfolding option_or offered panel given clicks clicks_in nodes element_of fragment when when_text
    when_node is_disabled own_clicks empty_state
detail-Offers P now g busy labelling none = refl
detail-Offers P now g busy labelling (some r) = threat_detail-Offers P now g busy labelling r

-- A click in the page of the threats sets the filter to "all" or to a severity, or is one that the view
-- of the selected report offers; with no report selected it can only set the filter.
pub threats_page-Offers :
    (P : Platform) (now : ℕ) (g : Guardian) (busy : ℕ → Bool) (labelling : Bool)
    (wanted : Option Severity) (report_id : Option String)
    → clicks (threats_page P now g busy labelling wanted report_id)
      ≡ map filter_severity filters ++ offered (selected report_id g.threats) busy labelling
unfolding threats_page clicks clicks_in nodes element_of fragment when when_text when_node
    is_disabled own_clicks panel given page_header page_meta empty_state
threats_page-Offers P now g busy labelling wanted report_id =
    rw
      (
        clicks-each_one (filter_button wanted) filter_severity (filter_button-Offers wanted)
            filters,
        clicks-when_text g.threats_error
            (λ message.
              element_of "div"
                (class
                    "mb-4 rounded-md bg-error-50 px-3 py-2 text-xs text-error-700 dark:bg-error-950 dark:text-error-300"
                  ∷ [])
                (text message ∷ []))
            (λ message. refl),
        detail-Offers P now g busy labelling (selected report_id g.threats),
      )
      (elim (Bool-cases (ltb 0 (length (sorted wanted g.threats)))) [
        | inl e ↦
            rw
              (
                e,
                clicks-each_none (report_item P now report_id) (report_item-Offers P now report_id)
                    (sorted wanted g.threats),
              )
              (simp append-nil)
        | inr e ↦ rw e (simp append-nil)
      ])

abbrev pub report_route : ThreatReport → String
report_route t = "/threats/" ^^ t.report_id

filter_button-Leads : (wanted s : Option Severity) → links (filter_button wanted s) ≡ []
unfolding filter_button links links_in nodes element_of own_links
filter_button-Leads wanted s = refl

report_item-Leads :
    (P : Platform) (now : ℕ) (id : Option String) (t : ThreatReport)
    → links (report_item P now id t) ≡ report_route t ∷ []
unfolding report_item links links_in nodes element_of own_links tone_badge
report_item-Leads P now id t = refl

detail-Leads :
    (P : Platform) (now : ℕ) (g : Guardian) (busy : ℕ → Bool) (labelling : Bool)
    (title detail : String) (o : Option ThreatReport)
    → links (
        option_or o
          (λ r. threat_detail P now g busy labelling r)
          (panel P none none none "" (empty_state title (some detail) [] ∷ [])))
      ≡ []
unfolding option_or panel given links links_in nodes element_of when when_node own_links
detail-Leads P now g busy labelling title detail none = rw empty_state-Leads refl
detail-Leads P now g busy labelling title detail (some r) =
    threat_detail-Leads P now g busy labelling r

-- The page of the threats leads, in the order of its list, to the report of each item.
pub threats_page-Leads :
    (P : Platform) (now : ℕ) (g : Guardian) (busy : ℕ → Bool) (labelling : Bool)
    (wanted : Option Severity) (report_id : Option String)
    → links (threats_page P now g busy labelling wanted report_id)
      ≡ map report_route (sorted wanted g.threats)
unfolding threats_page links links_in nodes element_of fragment when when_text when_node own_links
    panel given page_header page_meta
threats_page-Leads P now g busy labelling wanted report_id =
    rw
      (
        links-each_none (filter_button wanted) (filter_button-Leads wanted) filters,
        links-when_text g.threats_error _ (λ message. refl),
        detail-Leads P now g busy labelling,
      )
      (elim (Bool-cases (ltb 0 (length (sorted wanted g.threats)))) [
        | inl e ↦
            rw
              (
                e,
                links-each_one (report_item P now report_id) report_route
                    (report_item-Leads P now report_id) (sorted wanted g.threats),
              )
              (simp append-nil)
        | inr e ↦
            rw (e, empty_state-Leads, map_nothing report_route (sorted wanted g.threats) e) refl
      ])
