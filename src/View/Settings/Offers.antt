-- ===== src/View/Settings/Offers.antt =====
-- What the settings and the page of an unknown route offer, and where they lead.
use guardian_os_ai.Base.{◌≡◌, refl, String, [], ◌∷◌}
use guardian_os_ai.Platform.{Platform}
use guardian_os_ai.Context.Guardian.{Guardian}
use guardian_os_ai.View.Dom.{
  nodes, element_of, fragment, when, when_text, when_node, is_disabled, own_clicks, own_links,
  clicks, clicks_in, links, links_in, save_token, clear_token,
}
use guardian_os_ai.View.Ui.{panel, given, page_header, page_meta}
use guardian_os_ai.View.Settings.{settings_page, not_found}

pub settings_page-Offers :
    (P : Platform) (g : Guardian) (token : String)
    → clicks (settings_page P g token) ≡ save_token ∷ clear_token ∷ []
unfolding settings_page clicks clicks_in nodes element_of fragment when when_text when_node
    is_disabled own_clicks panel given page_header page_meta
settings_page-Offers P g token = refl

pub settings_page-Leads :
    (P : Platform) (g : Guardian) (token : String) → links (settings_page P g token) ≡ []
unfolding settings_page links links_in nodes element_of fragment when when_text when_node own_links
    panel given page_header page_meta
settings_page-Leads P g token = refl

pub not_found-Offers : clicks not_found ≡ []
unfolding not_found clicks clicks_in nodes element_of is_disabled own_clicks page_meta
not_found-Offers = refl

pub not_found-Leads : links not_found ≡ "/" ∷ []
unfolding not_found links links_in nodes element_of own_links page_meta
not_found-Leads = refl
