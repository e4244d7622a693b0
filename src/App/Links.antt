-- ===== src/App/Links.antt =====
-- Where the links of the application lead.
use guardian_os_ai.Base.{
  ℕ, Bool, true, false, String, Option, none, some, All, All-append, append-nil,
}
use guardian_os_ai.Platform.{Platform}
use guardian_os_ai.Context.Guardian.{Guardian}
use guardian_os_ai.Context.Sidebar.{Sidebar}
use guardian_os_ai.View.Dom.{Node, nothing, links, links_in, nodes, fragment, option_or}
use guardian_os_ai.View.Overview.Offers.{overview_page-Leads}
use guardian_os_ai.View.Threats.Offers.{threats_page-Leads}
use guardian_os_ai.View.Kernel.Offers.{kernel_page-Leads}
use guardian_os_ai.View.Processes.Offers.{processes_page-Leads}
use guardian_os_ai.View.Analysis.Offers.{analysis_page-Leads}
use guardian_os_ai.View.Response.Offers.{response_page-Leads}
use guardian_os_ai.View.Health.Offers.{health_page-Leads}
use guardian_os_ai.View.Settings.Offers.{settings_page-Leads, not_found-Leads}
use guardian_os_ai.View.Layout.Offers.{frame_links, app_layout-Leads}
use guardian_os_ai.App.{
  Page, overview, threats, kernel_activity, processes, ai_analysis, response, system_health,
  settings, missing, Router, Shown, page_at, Local, render_page, in_frame, screen,
}
use guardian_os_ai.View.Layout.{app_layout}
use guardian_os_ai.App.Linkable.{ArePlain, reports-AreLinkable}
use guardian_os_ai.App.Routing.{IsRouter}
use guardian_os_ai.App.Leads.{
  LeadsToPage, home-Leads, kernel-Leads, analyses-Leads, frame-Leads, latest-Leads, threats-Lead,
  rows-Lead, reports-Lead,
}

module _ (R : Router) (router : IsRouter R) (P : Platform) (now : ℕ) (g : Guardian)
    (plain : ArePlain g.threats) where
  page-Leads :
      (l : Local) (report_id : Option String) (page : Page)
      → All (LeadsToPage R g.threats) (links (render_page P now g l report_id page))
  unfolding render_page
  page-Leads l report_id overview = rw (overview_page-Leads P now g) (
    kernel-Leads R router g.threats,
    (
      analyses-Leads R router g.threats,
      latest-Leads R router g.threats plain g.threats (reports-AreLinkable g.threats plain),
    ),
  )
  page-Leads l report_id threats =
      rw (threats_page-Leads P now g l.busy l.labelling l.wanted_severity report_id)
        (threats-Lead R router g.threats plain l.wanted_severity)
  page-Leads l report_id kernel_activity = rw (kernel_page-Leads P g l.kind l.search) tt
  page-Leads l report_id processes =
      reports-Lead R router g.threats plain _ (processes_page-Leads P now g l.suspicious_only)
  page-Leads l report_id ai_analysis =
      rw (analysis_page-Leads P now g l.busy l.labelling l.selected_id) tt
  page-Leads l report_id response =
      rw (response_page-Leads P now g l.wanted_status)
        (rows-Lead R router g.threats plain l.wanted_status)
  page-Leads l report_id system_health = rw (health_page-Leads P g) tt
  page-Leads l report_id settings = rw (settings_page-Leads P g l.token) tt
  page-Leads l report_id missing = rw not_found-Leads (home-Leads R router g.threats, tt)

  framed-Leads :
      (s : Sidebar) (path : String) (framed : Bool) (page : Node)
      → All (LeadsToPage R g.threats) (links page)
      → All (LeadsToPage R g.threats) (links (in_frame framed (app_layout g s path) page))
  unfolding links links_in fragment nodes
  framed-Leads s path true page h =
      rw (app_layout-Leads g s path, append-nil (links page))
        (All-append (LeadsToPage R g.threats) frame_links _ (frame-Leads R router g.threats) h)
  framed-Leads s path false page h = h

  shown-Leads :
      (s : Sidebar) (l : Local) (path : String) (o : Option Shown)
      → All (LeadsToPage R g.threats) (
          links (
            option_or o
              (λ shown.
                in_frame shown.framed
                  (app_layout g s path)
                  (render_page P now g l shown.report_id shown.page))
              nothing))
  unfolding links option_or
  shown-Leads s l path none = tt
  shown-Leads s l path (some shown) =
      framed-Leads s path shown.framed _ (page-Leads l shown.report_id shown.page)

-- No link is dead: whatever is on the screen, each link leads to a page of the application, never to the
-- page of an unknown route, and where it leads to a report, the state has a report of that id; if the ids
-- of the reports need no encoding in a path.
pub screen-Leads :
    (R : Router) (router : IsRouter R) (P : Platform) (now : ℕ) (g : Guardian) (s : Sidebar)
    (l : Local) (path : String)
    → ArePlain g.threats
    → All (LeadsToPage R g.threats) (links (screen R P now g s l path))
unfolding screen
screen-Leads R router P now g s l path plain =
    shown-Leads R router P now g plain s l path (page_at R path)
