-- ===== src/View/Health/Offers.antt =====
-- What the page of the pipeline's health offers: the refresh.
use guardian_os_ai.Base.{
  ◌≡◌, refl, String, [], ◌∷◌, Option, length, ltb, inl, inr, Bool-cases, Option-cases, arith,
}
use guardian_os_ai.Platform.{Platform}
use guardian_os_ai.Api.Types.{Health}
use guardian_os_ai.Context.Guardian.{Guardian}
use guardian_os_ai.View.Dom.{
  nodes, element_of, fragment, when, when_text, when_node, option_or, is_disabled, own_clicks,
  own_links, clicks, clicks_in, links, links_in, refresh_all,
}
use guardian_os_ai.View.Dom.Lists.{clicks-when_text, links-when_text}
use guardian_os_ai.View.Ui.{panel, given, page_header, page_meta, tone_badge}
use guardian_os_ai.View.Ui.Silent.{empty_state-Offers, empty_state-Leads}
use guardian_os_ai.View.Health.{Reading, status_row, metric, metrics}
use guardian_os_ai.View.Health.Page.{pipeline_panel, provider_panel, health_page}

status_row-Offers :
    (label : String) (ok : Reading) (detail : Option String)
    → clicks (status_row label ok detail) ≡ []
unfolding status_row clicks clicks_in nodes element_of is_disabled own_clicks tone_badge
status_row-Offers label ok detail = rw (clicks-when_text detail _ (λ d. refl)) (ground arith)

status_row-Leads :
    (label : String) (ok : Reading) (detail : Option String)
    → links (status_row label ok detail) ≡ []
unfolding status_row links links_in nodes element_of own_links tone_badge
status_row-Leads label ok detail = rw (links-when_text detail _ (λ d. refl)) (ground arith)

metric-Offers : (label value : String) → clicks (metric label value) ≡ []
unfolding metric clicks clicks_in nodes element_of is_disabled own_clicks
metric-Offers label value = refl

metric-Leads : (label value : String) → links (metric label value) ≡ []
unfolding metric links links_in nodes element_of own_links
metric-Leads label value = refl

metrics-Offers : (h : Health) → clicks (metrics h) ≡ []
unfolding metrics clicks clicks_in nodes element_of is_disabled own_clicks
metrics-Offers h = simp metric-Offers

metrics-Leads : (h : Health) → links (metrics h) ≡ []
unfolding metrics links links_in nodes element_of own_links
metrics-Leads h = simp metric-Leads

pipeline_panel-Offers :
    (P : Platform) (g : Guardian) (h : Health) → clicks (pipeline_panel P g h) ≡ []
unfolding pipeline_panel clicks clicks_in nodes element_of is_disabled own_clicks panel given when
    when_node
pipeline_panel-Offers P g h = simp status_row-Offers

pipeline_panel-Leads :
    (P : Platform) (g : Guardian) (h : Health) → links (pipeline_panel P g h) ≡ []
unfolding pipeline_panel links links_in nodes element_of own_links panel given when when_node
pipeline_panel-Leads P g h = simp status_row-Leads

provider_panel-Offers : (P : Platform) (h : Health) → clicks (provider_panel P h) ≡ []
unfolding provider_panel clicks clicks_in nodes element_of is_disabled own_clicks panel given when
    when_node option_or
provider_panel-Offers P h = elim (Option-cases h.telemetry) [
  | inl e ↦ rw (e, empty_state-Offers) refl
  | inr (tel, e) ↦ rw e (elim (Bool-cases (ltb 0 (length tel.source))) [
    | inl sourced ↦ simp (status_row-Offers, metric-Offers, sourced)
    | inr bare ↦ simp (status_row-Offers, metric-Offers, bare)
  ])
]

provider_panel-Leads : (P : Platform) (h : Health) → links (provider_panel P h) ≡ []
unfolding provider_panel links links_in nodes element_of own_links panel given when when_node
    option_or
provider_panel-Leads P h = elim (Option-cases h.telemetry) [
  | inl e ↦ rw (e, empty_state-Leads) refl
  | inr (tel, e) ↦ rw e (elim (Bool-cases (ltb 0 (length tel.source))) [
    | inl sourced ↦ simp (status_row-Leads, metric-Leads, sourced)
    | inr bare ↦ simp (status_row-Leads, metric-Leads, bare)
  ])
]

-- The one button of the page asks for a refresh.
pub health_page-Offers : (P : Platform) (g : Guardian) → clicks (health_page P g) ≡ refresh_all ∷ []
unfolding health_page clicks clicks_in nodes element_of fragment when when_text when_node
    is_disabled own_clicks panel given page_header page_meta option_or
health_page-Offers P g =
    rw (clicks-when_text g.health_error _ (λ message. refl)) (elim (Option-cases g.health) [
      | inl e ↦ rw (e, empty_state-Offers) refl
      | inr (h, e) ↦ rw e (simp (metrics-Offers, pipeline_panel-Offers, provider_panel-Offers))
    ])

pub health_page-Leads : (P : Platform) (g : Guardian) → links (health_page P g) ≡ []
unfolding health_page links links_in nodes element_of fragment when when_text when_node own_links
    panel given page_header page_meta option_or
health_page-Leads P g =
    rw (links-when_text g.health_error _ (λ message. refl)) (elim (Option-cases g.health) [
      | inl e ↦ rw (e, empty_state-Leads) refl
      | inr (h, e) ↦ rw e (simp (metrics-Leads, pipeline_panel-Leads, provider_panel-Leads))
    ])
