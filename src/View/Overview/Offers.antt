-- ===== src/View/Overview/Offers.antt =====
-- What the first page offers and where it leads.
use guardian_os_ai.Base.{
  ℕ, ◌≡◌, refl, String, List, [], ◌∷◌, Option, take, length, head?, ltb, ◌==◌, inl, inr, Bool-cases,
  ◌^^◌, append-nil, arith,
}
use guardian_os_ai.Platform.{Platform}
use guardian_os_ai.Api.Types.{ThreatReport, KernelEvent}
use guardian_os_ai.Context.Guardian.{Guardian}
use guardian_os_ai.Pages.Overview.{Suspect, suspicious_processes}
use guardian_os_ai.View.Dom.{
  nodes, element_of, fragment, when, when_text, when_node, option_or, is_disabled, own_clicks,
  own_links, clicks, clicks_in, links, links_in,
}
use guardian_os_ai.View.Dom.Lists.{
  clicks-each_none, links-each_none, clicks-when, links-when, clicks-when_text, links-when_text,
}
use guardian_os_ai.View.Ui.{tone_badge, panel, given, page_header, page_meta, empty_state}
use guardian_os_ai.View.Ui.Silent.{empty_state-Offers, empty_state-Leads}
use guardian_os_ai.View.Overview.Figures.{stat_card, stat_cards}
use guardian_os_ai.View.Overview.Lists.{
  suspect_item, suspects_panel, event_row, kernel_panel, latest_report, analysis_panel,
}
use guardian_os_ai.View.Overview.{overview_page, severity_labels}

-- The report that the first page investigates, as a link.
abbrev pub latest_route : List ThreatReport → List String
latest_route [] = []
latest_route (t ∷ ts) = ("/threats/" ^^ t.report_id) ∷ []

-- The links of the page, in order.
abbrev pub overview_links : Guardian → List String
overview_links g = "/kernel" ∷ "/analysis" ∷ latest_route g.threats

stat_card-Offers :
    (label value : String) (detail : Option String) → clicks (stat_card label value detail) ≡ []
unfolding stat_card clicks clicks_in nodes element_of is_disabled own_clicks
stat_card-Offers label value detail = rw (clicks-when_text detail _ (λ d. refl)) refl

stat_card-Leads :
    (label value : String) (detail : Option String) → links (stat_card label value detail) ≡ []
unfolding stat_card links links_in nodes element_of own_links
stat_card-Leads label value detail = rw (links-when_text detail _ (λ d. refl)) refl

stat_cards-Offers : (g : Guardian) → clicks (stat_cards g) ≡ []
unfolding stat_cards clicks clicks_in nodes element_of is_disabled own_clicks
stat_cards-Offers g = simp stat_card-Offers

stat_cards-Leads : (g : Guardian) → links (stat_cards g) ≡ []
unfolding stat_cards links links_in nodes element_of own_links
stat_cards-Leads g = simp stat_card-Leads

suspect_item-Offers : (now : ℕ) (s : Suspect) → clicks (suspect_item now s) ≡ []
unfolding suspect_item clicks clicks_in nodes element_of is_disabled own_clicks tone_badge
suspect_item-Offers now s = refl

suspect_item-Leads : (now : ℕ) (s : Suspect) → links (suspect_item now s) ≡ []
unfolding suspect_item links links_in nodes element_of own_links tone_badge
suspect_item-Leads now s = refl

suspects_panel-Offers :
    (P : Platform) (now : ℕ) (g : Guardian) → clicks (suspects_panel P now g) ≡ []
unfolding suspects_panel clicks clicks_in nodes element_of fragment when when_text when_node
    is_disabled own_clicks panel given empty_state
suspects_panel-Offers P now g =
    elim (Bool-cases (ltb 0 (length (suspicious_processes g.threats)))) [
      | inl e ↦
          rw
            (
              e,
              clicks-each_none (suspect_item now) (suspect_item-Offers now)
                  (suspicious_processes g.threats),
            )
            refl
      | inr e ↦ rw e refl
    ]

suspects_panel-Leads : (P : Platform) (now : ℕ) (g : Guardian) → links (suspects_panel P now g) ≡ []
unfolding suspects_panel links links_in nodes element_of fragment when when_text when_node own_links
    panel given empty_state
suspects_panel-Leads P now g = elim (Bool-cases (ltb 0 (length (suspicious_processes g.threats)))) [
  | inl e ↦
      rw
        (
          e,
          links-each_none (suspect_item now) (suspect_item-Leads now)
              (suspicious_processes g.threats),
        )
        refl
  | inr e ↦ rw e refl
]

event_row-Offers : (P : Platform) (e : KernelEvent) → clicks (event_row P e) ≡ []
unfolding event_row clicks clicks_in nodes element_of is_disabled own_clicks
event_row-Offers P e = refl

event_row-Leads : (P : Platform) (e : KernelEvent) → links (event_row P e) ≡ []
unfolding event_row links links_in nodes element_of own_links
event_row-Leads P e = refl

kernel_panel-Offers : (P : Platform) (g : Guardian) → clicks (kernel_panel P g) ≡ []
unfolding kernel_panel clicks clicks_in nodes element_of fragment when when_text when_node
    is_disabled own_clicks panel given
kernel_panel-Offers P g = elim (Bool-cases (ltb 0 (length g.events))) [
  | inl e ↦ rw (e, clicks-each_none (event_row P) (event_row-Offers P) (take 8 g.events)) refl
  | inr e ↦ rw (e, empty_state-Offers) refl
]

kernel_panel-Leads : (P : Platform) (g : Guardian) → links (kernel_panel P g) ≡ "/kernel" ∷ []
unfolding kernel_panel links links_in nodes element_of fragment when when_text when_node own_links
    panel given
kernel_panel-Leads P g = elim (Bool-cases (ltb 0 (length g.events))) [
  | inl e ↦ rw (e, links-each_none (event_row P) (event_row-Leads P) (take 8 g.events)) refl
  | inr e ↦ rw (e, empty_state-Leads) refl
]

latest_report-Offers : (P : Platform) (t : ThreatReport) → clicks (latest_report P t) ≡ []
unfolding latest_report clicks clicks_in nodes element_of option_or is_disabled own_clicks
    tone_badge
latest_report-Offers P t =
    rw (clicks-when_text (head? t.explanation.reasons) _ (λ reason. refl)) (ground arith)

latest_report-Leads :
    (P : Platform) (t : ThreatReport)
    → links (latest_report P t) ≡ ("/threats/" ^^ t.report_id) ∷ []
unfolding latest_report links links_in nodes element_of option_or own_links tone_badge
latest_report-Leads P t =
    rw (links-when_text (head? t.explanation.reasons) _ (λ reason. refl)) (ground arith)

latest-Offers :
    (P : Platform) (title : String) (detail : Option String) (threats : List ThreatReport)
    → clicks (option_or (head? threats) (λ t. latest_report P t) (empty_state title detail [])) ≡ []
unfolding option_or
latest-Offers P title detail [] = empty_state-Offers title detail
latest-Offers P title detail (t ∷ threats) = latest_report-Offers P t

latest-Leads :
    (P : Platform) (title : String) (detail : Option String) (threats : List ThreatReport)
    → links (option_or (head? threats) (λ t. latest_report P t) (empty_state title detail []))
      ≡ latest_route threats
unfolding option_or
latest-Leads P title detail [] = empty_state-Leads title detail
latest-Leads P title detail (t ∷ threats) = latest_report-Leads P t

analysis_panel-Offers : (P : Platform) (g : Guardian) → clicks (analysis_panel P g) ≡ []
unfolding analysis_panel clicks clicks_in nodes element_of when when_node is_disabled own_clicks
    panel given
analysis_panel-Offers P g = simp latest-Offers

analysis_panel-Leads :
    (P : Platform) (g : Guardian)
    → links (analysis_panel P g) ≡ "/analysis" ∷ latest_route g.threats
unfolding analysis_panel links links_in nodes element_of when when_node own_links panel given
analysis_panel-Leads P g = simp (latest-Leads, append-nil)

pub overview_page-Offers :
    (P : Platform) (now : ℕ) (g : Guardian) → clicks (overview_page P now g) ≡ []
unfolding overview_page clicks clicks_in nodes element_of fragment when_text when_node is_disabled
    own_clicks panel given page_header page_meta tone_badge when
overview_page-Offers P now g =
    rw
      (
        clicks-when (length g.threats == 0),
        stat_cards-Offers,
        suspects_panel-Offers,
        kernel_panel-Offers,
        analysis_panel-Offers,
        empty_state-Offers,
        clicks-each_none _ (λ s. refl) severity_labels,
      )
      (elim (Bool-cases (length g.threats == 0)) [ inl e ↦ rw e refl | inr e ↦ rw e refl ])

pub overview_page-Leads :
    (P : Platform) (now : ℕ) (g : Guardian) → links (overview_page P now g) ≡ overview_links g
unfolding overview_page links links_in nodes element_of fragment when_text when_node own_links panel
    given page_header page_meta tone_badge
overview_page-Leads P now g =
    simp
      (
        links-when, stat_cards-Leads, suspects_panel-Leads, kernel_panel-Leads,
        analysis_panel-Leads, empty_state-Leads, links-each_none, append-nil,
      )
      (elim (Bool-cases (length g.threats == 0)) [ inl e ↦ rw e refl | inr e ↦ rw e refl ])
