-- ===== src/View/Response/Offers.antt =====
-- What the page of the response actions offers and where it leads.
use guardian_os_ai.Base.{
  ℕ, ◌≡◌, refl, String, [], ◌∷◌, Option, map, append-nil, length, ltb, inl, inr, Bool-cases, ◌^^◌,
}
use guardian_os_ai.Platform.{Platform}
use guardian_os_ai.Api.Types.{ActionStatus}
use guardian_os_ai.Context.Guardian.{Guardian}
use guardian_os_ai.Pages.Response.{ActionRow, rows, statuses}
use guardian_os_ai.View.Dom.{
  nodes, element_of, fragment, when, when_text, when_node, is_disabled, own_clicks, own_links,
  clicks, clicks_in, links, links_in, filter_status,
}
use guardian_os_ai.View.Dom.Lists.{
  clicks-each_none, clicks-each_one, links-each_none, links-each_one, map_nothing,
}
use guardian_os_ai.View.Ui.{tone_badge, panel, given, page_header, page_meta, empty_state}
use guardian_os_ai.View.Response.{filter_button, table_row, response_page}

abbrev pub report_route : ActionRow → String
report_route r = "/threats/" ^^ r.report_id

filter_button-Offers :
    (wanted s : Option ActionStatus) → clicks (filter_button wanted s) ≡ filter_status s ∷ []
unfolding filter_button clicks clicks_in nodes element_of is_disabled own_clicks
filter_button-Offers wanted s = refl

filter_button-Leads : (wanted s : Option ActionStatus) → links (filter_button wanted s) ≡ []
unfolding filter_button links links_in nodes element_of own_links
filter_button-Leads wanted s = refl

table_row-Offers : (now : ℕ) (r : ActionRow) → clicks (table_row now r) ≡ []
unfolding table_row clicks clicks_in nodes element_of when is_disabled own_clicks tone_badge
table_row-Offers now r = elim (Bool-cases r.destructive) [ inl e ↦ rw e refl | inr e ↦ rw e refl ]

table_row-Leads : (now : ℕ) (r : ActionRow) → links (table_row now r) ≡ report_route r ∷ []
unfolding table_row links links_in nodes element_of when own_links tone_badge
table_row-Leads now r = elim (Bool-cases r.destructive) [ inl e ↦ rw e refl | inr e ↦ rw e refl ]

-- A click in the page of the response actions only sets the filter, to one of the filters of the page: no
-- action is approved, rejected or rolled back from it.
pub response_page-Offers :
    (P : Platform) (now : ℕ) (g : Guardian) (wanted : Option ActionStatus)
    → clicks (response_page P now g wanted) ≡ map filter_status statuses
unfolding response_page clicks clicks_in nodes element_of fragment when when_text when_node
    is_disabled own_clicks panel given page_header page_meta empty_state
response_page-Offers P now g wanted =
    rw (clicks-each_one (filter_button wanted) filter_status (filter_button-Offers wanted) statuses)
      (elim (Bool-cases (ltb 0 (length (rows wanted g.threats)))) [
        | inl e ↦
            rw (e, clicks-each_none (table_row now) (table_row-Offers now) (rows wanted g.threats))
              refl
        | inr e ↦ rw e refl
      ])

-- The page of the response actions leads, in the order of its rows, to the report of each row.
pub response_page-Leads :
    (P : Platform) (now : ℕ) (g : Guardian) (wanted : Option ActionStatus)
    → links (response_page P now g wanted) ≡ map report_route (rows wanted g.threats)
unfolding response_page links links_in nodes element_of fragment when when_text when_node own_links
    panel given page_header page_meta empty_state
response_page-Leads P now g wanted =
    rw (links-each_none (filter_button wanted) (filter_button-Leads wanted) statuses)
      (elim (Bool-cases (ltb 0 (length (rows wanted g.threats)))) [
        | inl e ↦
            rw
              (
                e,
                links-each_one (table_row now) report_route (table_row-Leads now)
                    (rows wanted g.threats),
              )
              (simp append-nil)
        | inr e ↦ rw (e, map_nothing report_route (rows wanted g.threats) e) refl
      ])
