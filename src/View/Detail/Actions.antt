-- ===== src/View/Detail/Actions.antt =====
-- frontend/src/components/ThreatDetail.tsx: the rows of the response actions.
use guardian_os_ai.Base.{ℕ, ◌+◌, Bool, List, [], ◌∷◌, none, some, length, ◌==◌, ◌||◌}
use guardian_os_ai.Platform.{Platform}
use guardian_os_ai.Api.Types.{
  ThreatReport, ResponseAction, recommended, pending_approval, status_name, status_eq,
  action_type_name,
}
use guardian_os_ai.Format.{action_status_tone, red}
use guardian_os_ai.Pages.Threats.{has_executed}
use guardian_os_ai.View.Dom.{
  Node, text, flag, on, class, element_of, fragment, when, ask_approve, ask_reject, ask_rollback,
}
use guardian_os_ai.View.Ui.{tone_badge, panel}

-- A response action may be decided while it waits for a decision.
unfoldable pub actionable : ResponseAction → Bool
actionable a = status_eq a.status recommended || status_eq a.status pending_approval

-- `ActionRow`, with its own `busy`: the row of the action `a`, which is `report.actions[i]`.
unfoldable pub action_row : ThreatReport → ℕ → ResponseAction → Bool → Node
action_row r i a busy =
    element_of "div"
      (class
          "flex items-start justify-between gap-3 rounded-lg border border-gray-200 px-3 py-2.5 dark:border-gray-800"
        ∷ [])
      (element_of "div" (class "min-w-0" ∷ []) (
          element_of "div" (class "flex items-center gap-2" ∷ []) (
            element_of "span"
              (class "font-mono text-xs font-semibold text-gray-800 dark:text-gray-100" ∷ [])
              (text (action_type_name a.action_type) ∷ [])
            ∷ tone_badge (action_status_tone a.status) "" (text (status_name a.status) ∷ [])
            ∷ when a.destructive (tone_badge red "uppercase" (text "destructive" ∷ []))
            ∷ [])
          ∷ element_of "p" (class "mt-1 text-xs leading-4 text-gray-500 dark:text-gray-400" ∷ [])
              (text a.description ∷ [])
          ∷ element_of "p" (class "mt-0.5 text-[11px] text-gray-400 dark:text-gray-500" ∷ [])
              (text a.rationale ∷ [])
          ∷ [])
        ∷ when (actionable a) (
            element_of "div" (class "flex shrink-0 gap-2" ∷ []) (
              element_of "button"
                (flag "disabled" busy
                  ∷ on "onClick" (ask_approve r.report_id i)
                  ∷ class
                      "rounded-md bg-success-600 px-2.5 py-1 text-xs font-medium text-white transition-colors hover:bg-success-700 disabled:opacity-50"
                  ∷ [])
                (text "Approve" ∷ [])
              ∷ element_of "button"
                  (flag "disabled" busy
                    ∷ on "onClick" (ask_reject r.report_id i)
                    ∷ class
                        "rounded-md border border-gray-300 px-2.5 py-1 text-xs font-medium text-gray-700 transition-colors hover:bg-gray-100 disabled:opacity-50 dark:border-gray-700 dark:text-gray-300 dark:hover:bg-gray-800"
                    ∷ [])
                  (text "Reject" ∷ [])
              ∷ []))
        ∷ [])

unfoldable pub action_rows : ThreatReport → (ℕ → Bool) → ℕ → List ResponseAction → List Node
action_rows r busy i [] = []
action_rows r busy i (a ∷ actions) = action_row r i a (busy i) ∷ action_rows r busy (i + 1) actions

unfoldable pub actions_panel : Platform → ThreatReport → (ℕ → Bool) → Node
actions_panel P r busy =
    panel P (some (text "Recommended action")) (some (text "Approval-gated response actions")) none
      ""
      (element_of "div" (class "space-y-2" ∷ []) (
          fragment (action_rows r busy 0 r.actions)
          ∷ when (length r.actions == 0) (
              element_of "p" (class "text-sm text-gray-400" ∷ [])
                (text "No actions were recommended for this report." ∷ []))
          ∷ [])
        ∷ when (has_executed r) (
            element_of "div" (class "mt-3 flex justify-end" ∷ []) (
              element_of "button"
                (on "onClick" (ask_rollback r.report_id)
                  ∷ class
                      "rounded-md border border-gray-300 px-3 py-1.5 text-xs font-medium text-gray-700 transition-colors hover:bg-gray-100 dark:border-gray-700 dark:text-gray-300 dark:hover:bg-gray-800"
                  ∷ [])
                (text "Roll back executed actions" ∷ [])
              ∷ []))
        ∷ [])
