-- ===== src/View/Layout/Offers.antt =====
-- What the frame of the pages offers, and where it leads.
use guardian_os_ai.Base.{
  ◌≡◌, refl, Bool, String, List, [], ◌∷◌, ◌++◌, map, if◌then◌else◌, inl, inr, Bool-cases, true,
  false,
}
use guardian_os_ai.Context.Guardian.{Guardian}
use guardian_os_ai.Context.Sidebar.{Sidebar, shown_expanded}
use guardian_os_ai.View.Dom.{
  Intent, nodes, element_of, when, is_disabled, own_clicks, own_links, clicks, clicks_in, links,
  links_in, press_sidebar_toggle, press_theme_toggle, press_backdrop,
}
use guardian_os_ai.View.Dom.Lists.{
  clicks-each_none, links-each_one, clicks-when, links-when, clicks-when_text, links-when_text,
}
use guardian_os_ai.View.Ui.{tone_badge}
use guardian_os_ai.View.Layout.{backdrop, app_layout}
use guardian_os_ai.View.Layout.Header.{brand, theme_toggle_button, app_header}
use guardian_os_ai.View.Layout.Navigation.{
  NavItem, nav_items, nav_link, on_enter, is_wide, app_sidebar,
}

brand-Offers : (compact : Bool) → clicks (brand compact) ≡ []
unfolding brand clicks clicks_in nodes element_of is_disabled own_clicks when
brand-Offers true = refl
brand-Offers false = refl

brand-Leads : (compact : Bool) → links (brand compact) ≡ []
unfolding brand links links_in nodes element_of own_links when
brand-Leads true = refl
brand-Leads false = refl

app_header-Offers :
    (g : Guardian) → clicks (app_header g) ≡ press_sidebar_toggle ∷ press_theme_toggle ∷ []
unfolding app_header clicks clicks_in nodes element_of is_disabled own_clicks tone_badge
    theme_toggle_button
app_header-Offers g = rw brand-Offers refl

app_header-Leads : (g : Guardian) → links (app_header g) ≡ "/" ∷ "/settings" ∷ []
unfolding app_header links links_in nodes element_of own_links tone_badge theme_toggle_button
app_header-Leads g = rw brand-Leads refl

nav_link-Offers : (s : Sidebar) (path : String) (nav : NavItem) → clicks (nav_link s path nav) ≡ []
unfolding nav_link clicks clicks_in nodes element_of is_disabled own_clicks
nav_link-Offers s path nav =
    simp (clicks-when, clicks-when_text)
      (elim (Bool-cases (is_wide s)) [ inl e ↦ rw e refl | inr e ↦ rw e refl ])

nav_link-Leads :
    (s : Sidebar) (path : String) (nav : NavItem) → links (nav_link s path nav) ≡ nav.path ∷ []
unfolding nav_link links links_in nodes element_of own_links
nav_link-Leads s path nav = simp links-when (elim (Bool-cases (is_wide s)) [
  | inl e ↦ rw e (rw (links-when_text nav.badge _ (λ badge. refl)) refl)
  | inr e ↦ rw e refl
])

abbrev pub nav_path : NavItem → String
nav_path nav = nav.path

app_sidebar-Offers : (s : Sidebar) (path : String) → clicks (app_sidebar s path) ≡ []
unfolding app_sidebar clicks clicks_in nodes element_of is_disabled own_clicks on_enter
app_sidebar-Offers s path =
    rw (clicks-each_none (nav_link s path) (nav_link-Offers s path) nav_items)
      (elim (Bool-cases (is_wide s)) [
        | inl wide ↦ rw wide (
            rw brand-Offers
              (elim (Bool-cases (shown_expanded s)) [ inl e ↦ rw e refl | inr e ↦ rw e refl ]))
        | inr narrow ↦ rw narrow (
            rw brand-Offers
              (elim (Bool-cases (shown_expanded s)) [ inl e ↦ rw e refl | inr e ↦ rw e refl ]))
      ])

app_sidebar-Leads :
    (s : Sidebar) (path : String) → links (app_sidebar s path) ≡ "/" ∷ map nav_path nav_items
unfolding app_sidebar links links_in nodes element_of own_links on_enter
app_sidebar-Leads s path =
    rw (links-each_one (nav_link s path) nav_path (nav_link-Leads s path) nav_items)
      (elim (Bool-cases (is_wide s)) [
        | inl wide ↦ rw wide (
            rw brand-Leads
              (elim (Bool-cases (shown_expanded s)) [ inl e ↦ rw e refl | inr e ↦ rw e refl ]))
        | inr narrow ↦ rw narrow (
            rw brand-Leads
              (elim (Bool-cases (shown_expanded s)) [ inl e ↦ rw e refl | inr e ↦ rw e refl ]))
      ])

-- What the frame offers, in order: the backdrop while the mobile sidebar is open, and the two
-- buttons of the header.
abbrev pub frame_clicks : Sidebar → List Intent
frame_clicks s =
    (if s.is_mobile_open then press_backdrop ∷ [] else [])
    ++ press_sidebar_toggle ∷ press_theme_toggle ∷ []

abbrev pub frame_links : List String
frame_links = "/" ∷ map nav_path nav_items ++ "/" ∷ "/settings" ∷ []

pub app_layout-Offers :
    (g : Guardian) (s : Sidebar) (path : String) → clicks (app_layout g s path) ≡ frame_clicks s
unfolding app_layout backdrop clicks clicks_in nodes element_of is_disabled own_clicks when
app_layout-Offers g s path =
    rw (app_sidebar-Offers, app_header-Offers)
      (elim (Bool-cases s.is_mobile_open) [ inl e ↦ rw e refl | inr e ↦ rw e refl ])

pub app_layout-Leads :
    (g : Guardian) (s : Sidebar) (path : String) → links (app_layout g s path) ≡ frame_links
unfolding app_layout backdrop links links_in nodes element_of own_links when
app_layout-Leads g s path =
    rw (app_sidebar-Leads, app_header-Leads)
      (elim (Bool-cases s.is_mobile_open) [ inl e ↦ rw e refl | inr e ↦ rw e refl ])
