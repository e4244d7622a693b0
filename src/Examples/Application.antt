-- ===== src/Examples/Application.antt =====
-- The application at a concrete router, from its opening to an approval.
use mathlib.Core.Path.{subst}
use guardian_os_ai.Base.{
  Bool, ◌+◌, count, includes, ◌≡◌, refl, sym, false, [], ◌∷◌, ◌++◌, none, some, map, All, Any, here,
  Any-append_right, ◌^^◌,
}
use guardian_os_ai.Api.Types.{status_eq}
use guardian_os_ai.Api.Endpoints.{fetch_health, fetch_threats, fetch_events}
use guardian_os_ai.Context.Guardian.{resolved, refresh, threats_settled}
use guardian_os_ai.Context.Guardian.Requests
use guardian_os_ai.Context.Guardian.Requests.{World, issue, settle, threats_answer}
use guardian_os_ai.Context.Sidebar
use guardian_os_ai.View.Dom.{clicks, links, ask_approve, filter_severity}
use guardian_os_ai.View.Detail.Actions.{actionable}
use guardian_os_ai.View.Detail.Offers.{offered, all_decisions, decisions}
use guardian_os_ai.View.Threats.Offers.{filters}
use guardian_os_ai.View.Layout.Offers.{frame_clicks}
use guardian_os_ai.App.{Local, screen}
use guardian_os_ai.App.Leads.{LeadsToPage}
use guardian_os_ai.App.Links.{screen-Leads}
use guardian_os_ai.App.Asking.{IsGrounded, screen-AreGrounded}
use guardian_os_ai.App.Client.{perform, Step, Reach, opened, then_step, clicked, happens}
use guardian_os_ai.App.Conserved
use guardian_os_ai.App.Conserved.{Post, Run, wanted_by, posts_of, clicks_conserved}
use guardian_os_ai.App.Justified.{IsOldOrJustified, Step-AreJustified}
use guardian_os_ai.App.Details.{report_path-Offers}
use guardian_os_ai.Examples.Data.{browser, newer, guardian, idle}
use guardian_os_ai.Examples.Routing.{plain_router, plain_router-IsRouter}

abbrev local : Local
local = record {
  busy = idle;
  labelling = false;
  wanted_severity = none;
  wanted_status = none;
  kind = none;
  search = "";
  suspicious_only = false;
  selected_id = none;
  token = "";
}

-- The client has opened, and the list of reports arrives.
abbrev answered : World
answered = record {
  guardian =
      (settle (fetch_threats 200) (threats_answer (resolved (newer ∷ [])))
        Requests.start.guardian).0;
  in_flight = fetch_health ∷ fetch_events 200 ∷ [];
}

answered_reach : Reach plain_router browser answered
unfolding refresh settle
answered_reach = then_step opened (
    happens
      (Requests.answers Requests.start (fetch_health ∷ []) (fetch_events 200 ∷ [])
        (fetch_threats 200) (threats_answer (resolved (newer ∷ []))) refl (tt, tt))
      tt)

newer_listed : Any (λ u. u ≡ newer) answered.guardian.threats
unfolding settle threats_settled
newer_listed = here refl

screen-Leads_example :
    All
      (LeadsToPage plain_router guardian.threats)
      (links (screen plain_router browser 0 guardian Sidebar.initial local "/threats"))
screen-Leads_example =
    screen-Leads plain_router plain_router-IsRouter browser 0 guardian Sidebar.initial local
      "/threats" (refl, (refl, tt))

screen-AreGrounded_example :
    All
      (IsGrounded idle false guardian.threats)
      (clicks (screen plain_router browser 0 guardian Sidebar.initial local "/threats/b"))
screen-AreGrounded_example =
    screen-AreGrounded plain_router browser 0 guardian Sidebar.initial local "/threats/b"

report_path-Offers_example :
    clicks
      (screen plain_router browser 0 answered.guardian Sidebar.initial local ("/threats/" ^^ "b"))
    ≡ frame_clicks Sidebar.initial
      ++ (map filter_severity filters ++ offered (some newer) idle false)
report_path-Offers_example =
    report_path-Offers plain_router plain_router-IsRouter browser 0 Sidebar.initial local newer
      answered_reach newer_listed refl

abbrev asked : World
asked = issue (perform (ask_approve "b" 0) answered.guardian) answered

approve_shown :
    Any
      (λ y. y ≡ ask_approve "b" 0)
      (clicks (screen plain_router browser 0 answered.guardian Sidebar.initial local "/threats/b"))
unfolding offered all_decisions decisions actionable status_eq
approve_shown = subst (Any (λ y. y ≡ ask_approve "b" 0)) (sym report_path-Offers_example) (
    Any-append_right (frame_clicks Sidebar.initial)
      (Any-append_right (map filter_severity filters) (here refl)))

-- The POSTs that approve something.
abbrev approvals : Post → Bool
approvals p = includes p.path "/approve"

-- The first action of the report is approved on the page of the report.
approve_step : Step plain_router browser answered asked
approve_step =
    clicked answered 0 Sidebar.initial local "/threats/b" (ask_approve "b" 0) approve_shown

Step-AreJustified_example : All (IsOldOrJustified answered) asked.in_flight
Step-AreJustified_example = Step-AreJustified approve_step

approve_run : Run plain_router browser (ask_approve "b" 0 ∷ []) (fetch_threats 200 ∷ []) (
    issue
      (perform
        (ask_approve "b" 0)
        (issue
          (settle
            (fetch_threats 200)
            (threats_answer (resolved (newer ∷ [])))
            Requests.start.guardian)
          answered).guardian)
      (issue
        (settle
          (fetch_threats 200)
          (threats_answer (resolved (newer ∷ [])))
          Requests.start.guardian)
        (record Requests.start { in_flight = fetch_health ∷ fetch_events 200 ∷ [] })))
unfolding refresh
approve_run =
    Conserved.clicked
      (Conserved.answered Conserved.opened (fetch_health ∷ []) (fetch_events 200 ∷ [])
        (fetch_threats 200) (threats_answer (resolved (newer ∷ []))) refl (tt, tt))
      0 Sidebar.initial local "/threats/b" (ask_approve "b" 0) approve_shown

-- The click is counted among the calls in flight.
clicks_conserved_example :
    count approvals (wanted_by browser (ask_approve "b" 0 ∷ []))
    ≡ count approvals (posts_of browser asked.in_flight)
      + count approvals (posts_of browser (fetch_threats 200 ∷ []))
unfolding settle
clicks_conserved_example = clicks_conserved approve_run approvals
