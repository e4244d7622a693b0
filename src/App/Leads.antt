-- ===== src/App/Leads.antt =====
-- What it is to lead to a page, and that the fixed links and the lists of reports do so.
use mathlib.Core.Path.{subst}
use guardian_os_ai.Base.{
  ◌≡◌, ◌≢◌, refl, sym, true, String, List, [], ◌∷◌, Option, none, some, map, All, Any, here, there,
  All-imp, All-map, ◌^^◌,
}
use guardian_os_ai.Platform.{get_item}
use guardian_os_ai.Api.Types.{ThreatReport, ActionStatus, Severity}
use guardian_os_ai.Pages.Response.{rows}
use guardian_os_ai.Pages.Threats.{sorted}
use guardian_os_ai.View.Threats
use guardian_os_ai.View.Response
use guardian_os_ai.View.Overview.Offers.{latest_route}
use guardian_os_ai.View.Threats.Offers.{threats_page-Leads}
use guardian_os_ai.View.Processes.Offers.{LeadsToReport}
use guardian_os_ai.View.Response.Offers.{response_page-Leads}
use guardian_os_ai.View.Layout.Offers.{frame_links}
use guardian_os_ai.App.{
  Page, overview, threats, kernel_activity, processes, ai_analysis, response, system_health,
  settings, missing, Router, Shown, page_at, patterns,
}
use guardian_os_ai.App.Linkable.{
  ArePlain, IsLinkable, IsLinkableReport, listed-IsLinkable, sorted-AreLinkable, rows-AreLinkable,
}
use guardian_os_ai.App.Routing.{IsRouter, is_static, page_at-report}

-- The report that a page is to show, if any, is one of the state.
abbrev pub IsKnown : List ThreatReport → Option String → Type 0
IsKnown reports none = Unit {0}
IsKnown reports (some id) = Any (λ t. t.report_id ≡ id) reports

-- The route shows a page of the application, and no report that the state does not have.
abbrev pub LeadsToPage : Router → List ThreatReport → String → Type 0
LeadsToPage R reports route =
    (shown : Shown) × (page_at R route ≡ some shown)
    × (shown.page ≢ missing)
    × IsKnown reports shown.report_id

module _ (R : Router) (router : IsRouter R) (reports : List ThreatReport) where
  fixed-Leads :
      (path : String) (page : Page)
      → Any (λ p. p ≡ path) patterns
      → is_static path ≡ true
      → page_at (λ ps p. some (record { pattern = path; params = [] })) path
        ≡ some (record { page = page; framed = true; report_id = none })
      → page ≢ missing
      → LeadsToPage R reports path
  unfolding page_at
  fixed-Leads path page there_is static is_page framed = (
    record { page = page; framed = true; report_id = none },
    rw (router.static patterns path there_is static) is_page,
    framed,
    tt,
  )

  pub home-Leads : LeadsToPage R reports "/"
  unfolding page_at get_item
  home-Leads = fixed-Leads "/" overview (here refl) refl refl (cc)

  threats_list-Leads : LeadsToPage R reports "/threats"
  unfolding page_at get_item
  threats_list-Leads = fixed-Leads "/threats" threats (there (here refl)) refl refl (cc)

  pub kernel-Leads : LeadsToPage R reports "/kernel"
  unfolding page_at get_item
  kernel-Leads =
      fixed-Leads "/kernel" kernel_activity (there (there (there (here refl)))) refl refl (cc)

  process_list-Leads : LeadsToPage R reports "/processes"
  unfolding page_at get_item
  process_list-Leads =
      fixed-Leads "/processes" processes (there (there (there (there (here refl))))) refl refl (cc)

  pub analyses-Leads : LeadsToPage R reports "/analysis"
  unfolding page_at get_item
  analyses-Leads =
      fixed-Leads "/analysis" ai_analysis (there (there (there (there (there (here refl)))))) refl
        refl (cc)

  responses-Leads : LeadsToPage R reports "/response"
  unfolding page_at get_item
  responses-Leads =
      fixed-Leads "/response" response (there (there (there (there (there (there (here refl)))))))
        refl refl (cc)

  health-Leads : LeadsToPage R reports "/health"
  unfolding page_at get_item
  health-Leads =
      fixed-Leads "/health" system_health
        (there (there (there (there (there (there (there (here refl)))))))) refl refl (cc)

  token-Leads : LeadsToPage R reports "/settings"
  unfolding page_at get_item
  token-Leads =
      fixed-Leads "/settings" settings
        (there (there (there (there (there (there (there (there (here refl))))))))) refl refl (cc)

  pub frame-Leads : All (LeadsToPage R reports) frame_links
  frame-Leads = (
    home-Leads,
    (
      home-Leads,
      (
        threats_list-Leads,
        (
          kernel-Leads,
          (
            process_list-Leads,
            (
              analyses-Leads,
              (responses-Leads, (health-Leads, (token-Leads, (home-Leads, (token-Leads, tt))))),
            ),
          ),
        ),
      ),
    ),
  )

  linkable-Leads : (id : String) → IsLinkable reports id → LeadsToPage R reports ("/threats/" ^^ id)
  linkable-Leads id (plain, there_is) = (
    record { page = threats; framed = true; report_id = some id },
    page_at-report R router id plain,
    cc,
    there_is,
  )

  module _ (plain : ArePlain reports) where
    pub latest-Leads :
        (ts : List ThreatReport)
        → All (IsLinkableReport reports) ts
        → All (LeadsToPage R reports) (latest_route ts)
    latest-Leads [] h = tt
    latest-Leads (t ∷ ts) (h, k) = (linkable-Leads t.report_id h, tt)

    pub threats-Lead :
        (wanted : Option Severity)
        → All (LeadsToPage R reports) (map Threats.Offers.report_route (sorted wanted reports))
    threats-Lead wanted =
        All-map Threats.Offers.report_route (LeadsToPage R reports) _ (
          All-imp (λ t h. linkable-Leads t.report_id h) _ (sorted-AreLinkable reports wanted plain))

    pub rows-Lead :
        (wanted : Option ActionStatus)
        → All (LeadsToPage R reports) (map Response.Offers.report_route (rows wanted reports))
    rows-Lead wanted = All-map Response.Offers.report_route (LeadsToPage R reports) _ (
        All-imp (λ row h. linkable-Leads row.report_id h) _ (rows-AreLinkable reports wanted plain))

    pub reports-Lead :
        (routes : List String)
        → All (LeadsToReport reports) routes
        → All (LeadsToPage R reports) routes
    reports-Lead = All-imp (λ route (t, there_is, is_route).
        subst (LeadsToPage R reports) (sym is_route)
          (linkable-Leads t.report_id (listed-IsLinkable reports t plain there_is)))
