-- ===== src/App.antt =====
-- frontend/src/App.tsx: the table of routes, and the page that a path shows, in the frame of
-- frontend/src/layout/AppLayout.tsx. The package react-router chooses the route: `Router` is its choice
-- among the patterns of a table. What the pages keep for themselves is `Local`.
pub mod Routing
pub mod Linkable
pub mod Asking
pub mod Client
pub mod Justified
pub mod Conserved
pub mod Details
pub mod Leads
pub mod Links
use guardian_os_ai.Base.{
  ℕ, Bool, true, false, String, List, [], ◌∷◌, Option, none, some, map, find, str_eq,
}
use guardian_os_ai.Platform.{Platform, get_item}
use guardian_os_ai.Api.Types.{Severity, ActionStatus, EventKind}
use guardian_os_ai.Context.Guardian.{Guardian}
use guardian_os_ai.Context.Sidebar.{Sidebar}
use guardian_os_ai.View.Dom.{Node, nothing, fragment, option_or}
use guardian_os_ai.View.Overview.{overview_page}
use guardian_os_ai.View.Threats.{threats_page}
use guardian_os_ai.View.Kernel.{kernel_page}
use guardian_os_ai.View.Processes.{processes_page}
use guardian_os_ai.View.Analysis.{analysis_page}
use guardian_os_ai.View.Response.{response_page}
use guardian_os_ai.View.Health.Page.{health_page}
use guardian_os_ai.View.Settings.{settings_page, not_found}
use guardian_os_ai.View.Layout.{app_layout}

-- The components that the routes render.
pub data Page : Type 0 where
  overview threats kernel_activity processes ai_analysis response system_health settings missing :
      Page

pub record Route : Type 0 where
  pub path : String
  pub page : Page
  -- inside the route of `AppLayout`
  pub framed : Bool

abbrev inside : String → Page → Route
inside path page = record { path = path; page = page; framed = true }

abbrev pub routes : List Route
routes =
    inside "/" overview
    ∷ inside "/threats" threats
    ∷ inside "/threats/:reportId" threats
    ∷ inside "/kernel" kernel_activity
    ∷ inside "/processes" processes
    ∷ inside "/analysis" ai_analysis
    ∷ inside "/response" response
    ∷ inside "/health" system_health
    ∷ inside "/settings" settings
    ∷ record { path = "*"; page = missing; framed = false }
    ∷ []

abbrev pub path_of : Route → String
path_of r = r.path

abbrev pub patterns : List String
patterns = map path_of routes

-- The pattern that was chosen, and the values of its parameters.
pub record Match : Type 0 where
  pub pattern : String
  pub params : List (String × String)

abbrev pub Router : Type 0
Router = List String → String → Option Match

-- The page at a path, whether it is framed, and the `reportId` that `useParams` hands to it.
pub record Shown : Type 0 where
  pub page : Page
  pub framed : Bool
  pub report_id : Option String

abbrev shown_by : Match → Option Route → Option Shown
shown_by m none = none
shown_by m (some r) =
    some (record { page = r.page; framed = r.framed; report_id = get_item "reportId" m.params })

abbrev chosen : Option Match → Option Shown
chosen none = none
chosen (some m) = shown_by m (find (λ r. str_eq r.path m.pattern) routes)

unfoldable pub page_at : Router → String → Option Shown
page_at R path = chosen (R patterns path)

-- The state of the pages: the busy flags of a report's view, the filters, the choice, the form.
pub record Local : Type 0 where
  pub busy : ℕ → Bool
  pub labelling : Bool
  pub wanted_severity : Option Severity
  pub wanted_status : Option ActionStatus
  pub kind : Option EventKind
  pub search : String
  pub suspicious_only : Bool
  pub selected_id : Option String
  pub token : String

unfoldable pub render_page : Platform → ℕ → Guardian → Local → Option String → Page → Node
render_page P now g l report_id overview = overview_page P now g
render_page P now g l report_id threats =
    threats_page P now g l.busy l.labelling l.wanted_severity report_id
render_page P now g l report_id kernel_activity = kernel_page P g l.kind l.search
render_page P now g l report_id processes = processes_page P now g l.suspicious_only
render_page P now g l report_id ai_analysis = analysis_page P now g l.busy l.labelling l.selected_id
render_page P now g l report_id response = response_page P now g l.wanted_status
render_page P now g l report_id system_health = health_page P g
render_page P now g l report_id settings = settings_page P g l.token
render_page P now g l report_id missing = not_found

-- The frame, and the page that its `Outlet` stands for; a page outside the frame stands alone.
abbrev pub in_frame : Bool → Node → Node → Node
in_frame true frame page = fragment (frame ∷ page ∷ [])
in_frame false frame page = page

unfoldable pub screen : Router → Platform → ℕ → Guardian → Sidebar → Local → String → Node
screen R P now g s l path =
    option_or (page_at R path)
      (λ shown.
        in_frame shown.framed (app_layout g s path)
          (render_page P now g l shown.report_id shown.page))
      nothing
