-- ===== src/View/Kernel/Offers.antt =====
-- What the page of the telemetry stream offers: the refresh.
use guardian_os_ai.Base.{◌≡◌, refl, String, [], ◌∷◌, Option, length, ltb, inl, inr, Bool-cases}
use guardian_os_ai.Platform.{Platform}
use guardian_os_ai.Api.Types.{EventKind, KernelEvent}
use guardian_os_ai.Context.Guardian.{Guardian}
use guardian_os_ai.Pages.Kernel.{event_kinds, filtered}
use guardian_os_ai.View.Dom.{
  nodes, element_of, fragment, when, when_text, when_node, is_disabled, own_clicks, own_links,
  clicks, clicks_in, links, links_in, refresh_all,
}
use guardian_os_ai.View.Dom.Lists.{clicks-each_none, links-each_none}
use guardian_os_ai.View.Ui.{panel, given, page_header, page_meta}
use guardian_os_ai.View.Ui.Silent.{empty_state-Offers, empty_state-Leads}
use guardian_os_ai.View.Kernel.{table_row, kernel_page}

table_row-Offers : (P : Platform) (e : KernelEvent) → clicks (table_row P e) ≡ []
unfolding table_row clicks clicks_in nodes element_of is_disabled own_clicks
table_row-Offers P e = refl

table_row-Leads : (P : Platform) (e : KernelEvent) → links (table_row P e) ≡ []
unfolding table_row links links_in nodes element_of own_links
table_row-Leads P e = refl

-- The one button of the page asks for a refresh; the filters are no buttons.
pub kernel_page-Offers :
    (P : Platform) (g : Guardian) (kind : Option EventKind) (search : String)
    → clicks (kernel_page P g kind search) ≡ refresh_all ∷ []
unfolding kernel_page clicks clicks_in nodes element_of fragment when when_text when_node
    is_disabled own_clicks panel given page_header page_meta
kernel_page-Offers P g kind search =
    rw (clicks-each_none _ (λ k. refl) event_kinds)
      (elim (Bool-cases (ltb 0 (length (filtered P kind search g.events)))) [
        | inl e ↦
            rw
              (
                e,
                clicks-each_none (table_row P) (table_row-Offers P)
                    (filtered P kind search g.events),
              )
              refl
        | inr e ↦ rw (e, empty_state-Offers) refl
      ])

pub kernel_page-Leads :
    (P : Platform) (g : Guardian) (kind : Option EventKind) (search : String)
    → links (kernel_page P g kind search) ≡ []
unfolding kernel_page links links_in nodes element_of fragment when when_text when_node own_links
    panel given page_header page_meta
kernel_page-Leads P g kind search =
    rw (links-each_none _ (λ k. refl) event_kinds)
      (elim (Bool-cases (ltb 0 (length (filtered P kind search g.events)))) [
        | inl e ↦
            rw
              (
                e,
                links-each_none (table_row P) (table_row-Leads P) (filtered P kind search g.events),
              )
              refl
        | inr e ↦ rw (e, empty_state-Leads) refl
      ])
