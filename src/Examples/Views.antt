-- ===== src/Examples/Views.antt =====
-- What the views of concrete reports offer.
use guardian_os_ai.Base.{
  ◌≡◌, ◌↔◌, false, ◌++◌, some, map, Any, refl, here, trim, truthy, if◌then◌else◌, arith, none,
}
use guardian_os_ai.Api.Types.{executed, low, pending_approval, status_eq}
use guardian_os_ai.Pages.Response.{statuses}
use guardian_os_ai.View.Dom.{
  clicks, clicks_in, nodes, element_of, when, is_disabled, own_clicks, ask_approve, filter_status,
  filter_severity,
}
use guardian_os_ai.View.Detail.{threat_detail}
use guardian_os_ai.View.Detail.Offers.{
  all_decisions, rollbacks, verdicts, offered, threat_detail-Offers,
}
use guardian_os_ai.View.Detail.Approvals.{Awaits, approval-IsOffered}
use guardian_os_ai.View.Detail.Actions.{action_row, actionable}
use guardian_os_ai.View.Detail.Busy.{
  Reach, shown, then_step, decided, decision_settled, initial, run_started, run_settled, IsGuarded,
  Reach-IsGuarded,
}
use guardian_os_ai.View.Analysis.{analysis_page}
use guardian_os_ai.View.Analysis.Offers.{selects, analysis_page-Offers}
use guardian_os_ai.Pages.Analysis
use guardian_os_ai.View.Settings.{initial_token, token_saved, token_cleared}
use guardian_os_ai.View.Settings.Token.{settings_token}
use guardian_os_ai.Api.Client.{get_token}
use guardian_os_ai.View.Ui.{tone_badge}
use guardian_os_ai.View.Response.{response_page}
use guardian_os_ai.View.Response.Offers.{response_page-Offers}
use guardian_os_ai.View.Threats.{threats_page}
use guardian_os_ai.View.Threats.Offers.{filters, threats_page-Offers}
use guardian_os_ai.Pages.Threats.{selected}
use guardian_os_ai.Examples.Data.{browser, newer, guardian, idle, store, action}

approval-IsOffered_example :
    Any (λ x. x ≡ ask_approve "b" 0) (clicks (threat_detail browser 0 guardian idle false newer))
    ↔ (newer.report_id ≡ "b") × Awaits idle newer.actions 0 0
approval-IsOffered_example = approval-IsOffered browser 0 guardian idle false newer "b" 0

threat_detail-Offers_example :
    clicks (threat_detail browser 0 guardian idle false newer)
    ≡ all_decisions newer idle 0 newer.actions ++ rollbacks newer ++ verdicts newer false
threat_detail-Offers_example = threat_detail-Offers browser 0 guardian idle false newer

response_page-Offers_example :
    clicks (response_page browser 0 guardian (some executed)) ≡ map filter_status statuses
response_page-Offers_example = response_page-Offers browser 0 guardian (some executed)

threats_page-Offers_example :
    clicks (threats_page browser 0 guardian idle false (some low) (some "b"))
    ≡ map filter_severity filters ++ offered (selected (some "b") guardian.threats) idle false
threats_page-Offers_example =
    threats_page-Offers browser 0 guardian idle false (some low) (some "b")

analysis_page-Offers_example :
    clicks (analysis_page browser 0 guardian idle false (some "a"))
    ≡ map selects (Analysis.sorted guardian.threats)
      ++ offered (Analysis.report (some "a") guardian.threats) idle false
analysis_page-Offers_example = analysis_page-Offers browser 0 guardian idle false (some "a")

-- The approval of the first action is clicked, and its request settles.
settled_reach : Reach browser 0 (run_settled (run_started initial))
unfolding run_started action_row clicks clicks_in nodes element_of when is_disabled own_clicks
    tone_badge actionable status_eq
settled_reach =
    then_step
      (then_step shown
        (decided initial newer (action pending_approval) (ask_approve "b" 0) (here refl)))
      (decision_settled (run_started initial) (omega arith))

Reach-IsGuarded_example :
    IsGuarded (run_settled (run_started initial)).row
    × IsGuarded (run_settled (run_started initial)).label
Reach-IsGuarded_example = Reach-IsGuarded browser 0 settled_reach

settings_token_example :
    (initial_token (token_saved " t " store) ≡ trim " t ")
    × (get_token (token_saved " t " store)
        ≡ (if truthy (trim " t ") then some (trim " t ") else none))
    × ((token_cleared store).0 ≡ "")
    × (initial_token (token_cleared store).1 ≡ "")
    × (get_token (token_cleared store).1 ≡ none)
settings_token_example = settings_token " t " store
