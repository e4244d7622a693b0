-- ===== src/View/Ui/Silent.antt =====
-- A placeholder without children asks for nothing and leads nowhere, whatever it says.
use guardian_os_ai.Base.{◌≡◌, refl, String, [], Option}
use guardian_os_ai.View.Dom.{
  nodes, element_of, fragment, is_disabled, own_clicks, own_links, clicks, clicks_in, links,
  links_in,
}
use guardian_os_ai.View.Dom.Lists.{clicks-when_text, links-when_text}
use guardian_os_ai.View.Ui.{empty_state}

pub empty_state-Offers :
    (title : String) (detail : Option String) → clicks (empty_state title detail []) ≡ []
unfolding empty_state clicks clicks_in nodes element_of fragment is_disabled own_clicks
empty_state-Offers title detail = rw (clicks-when_text detail _ (λ s. refl)) refl

pub empty_state-Leads :
    (title : String) (detail : Option String) → links (empty_state title detail []) ≡ []
unfolding empty_state links links_in nodes element_of fragment own_links
empty_state-Leads title detail = rw (links-when_text detail _ (λ s. refl)) refl
