-- ===== src/View/Detail.antt =====
-- frontend/src/components/ThreatDetail.tsx: a report with its evidence, its response actions and the
-- analyst's verdict. `now` is the time of the rendering.
pub mod Actions
pub mod Evidence
pub mod Offers
pub mod Approvals
pub mod Busy
pub mod Remount
pub mod Leads
use guardian_os_ai.Base.{
  ℕ, ◌+◌, Bool, true, false, String, List, [], ◌∷◌, Option, none, some, map, length, take, head?,
  str_eq, ltb, ◌==◌, not, if◌then◌else◌, ◌||◌, ◌&&◌, ◌^^◌, decimal, or_else,
}
use guardian_os_ai.Platform.{Platform}
use guardian_os_ai.Api.Types.{
  ThreatReport, ResponseAction, ChainStep, MitreReference, recommended, pending_approval, benign,
  malicious, severity_name, status_name, status_eq, action_type_name,
}
use guardian_os_ai.Format.{
  format_date_time, format_relative, short_exe, severity_tone, action_status_tone, Tone, gray, blue,
  amber, orange, red, green,
}
use guardian_os_ai.Context.Guardian.{Guardian}
use guardian_os_ai.Pages.Threats.{has_executed}
use guardian_os_ai.View.Dom.{
  Node, Attr, nothing, text, attr, flag, on, on_change, on_check, class, element_of, fragment, each,
  when, when_text, option_or, join, refresh_all, ask_approve, ask_reject, ask_rollback, ask_label,
  select_report, filter_severity, filter_status, filter_kind, search_for, show_suspicious,
  type_token, save_token, clear_token, press_sidebar_toggle, press_backdrop, hover_sidebar,
  press_theme_toggle,
}
use guardian_os_ai.View.Ui.{tone_badge, panel, page_header, page_meta, empty_state}
use guardian_os_ai.View.Detail.Actions.{actions_panel}
use guardian_os_ai.View.Detail.Evidence.{reasons_panel, risk_panel, evidence_panel}

unfoldable pub verdict_panel : Platform → ThreatReport → Bool → Node
verdict_panel P r labelling =
    panel P (some (text "Analyst verdict")) (some (text "Feed back into the learning baseline"))
      none ""
      (element_of "div" (class "flex items-center justify-between gap-3" ∷ []) (
          element_of "p" (class "text-xs text-gray-500 dark:text-gray-400" ∷ []) (
            text "Marking a chain "
            ∷ element_of "strong" [] (text "benign" ∷ [])
            ∷ text " folds it into the baseline;"
            ∷ element_of "strong" [] (text " malicious" ∷ [])
            ∷ text " excludes it and refits the detector."
            ∷ [])
          ∷ element_of "div" (class "flex shrink-0 gap-2" ∷ []) (
              element_of "button"
                (flag "disabled" labelling
                  ∷ on "onClick" (ask_label r.report_id benign)
                  ∷ class
                      "rounded-md border border-success-600 px-3 py-1.5 text-xs font-medium text-success-700 transition-colors hover:bg-success-50 disabled:opacity-50 dark:text-success-400 dark:hover:bg-success-950"
                  ∷ [])
                (text "Mark benign" ∷ [])
              ∷ element_of "button"
                  (flag "disabled" labelling
                    ∷ on "onClick" (ask_label r.report_id malicious)
                    ∷ class
                        "rounded-md bg-error-600 px-3 py-1.5 text-xs font-medium text-white transition-colors hover:bg-error-700 disabled:opacity-50"
                    ∷ [])
                  (text "Mark malicious" ∷ [])
              ∷ [])
          ∷ [])
        ∷ [])

-- `ThreatDetail`, with the `busy` of each of its rows and its own `labelBusy`.
unfoldable pub threat_detail : Platform → ℕ → Guardian → (ℕ → Bool) → Bool → ThreatReport → Node
threat_detail P now g busy labelling r = element_of "div" (class "space-y-4" ∷ []) (
    when_text g.mutation_error (λ message.
      element_of "div"
        (class
            "rounded-md bg-error-50 px-3 py-2 text-xs text-error-700 dark:bg-error-950 dark:text-error-300"
          ∷ [])
        (text message ∷ []))
    ∷ panel P (some (text "What happened")) (some (text "AI-generated detection narrative")) none ""
        (element_of "p" (class "text-sm leading-5 text-gray-700 dark:text-gray-300" ∷ [])
            (text r.explanation.summary ∷ [])
          ∷ [])
    ∷ reasons_panel P r
    ∷ element_of "div" (class "grid gap-4 lg:grid-cols-2" ∷ [])
        (risk_panel P r ∷ evidence_panel P r ∷ [])
    ∷ actions_panel P r busy
    ∷ verdict_panel P r labelling
    ∷ element_of "p" (class "text-right text-[11px] text-gray-400 dark:text-gray-500" ∷ []) (
        text r.report_id
        ∷ text " · "
        ∷ text (short_exe r.detection.exe)
        ∷ text " (pid "
        ∷ text (decimal r.detection.pid)
        ∷ text ") ·"
        ∷ text " "
        ∷ text (format_date_time P r.timestamp)
        ∷ text " · "
        ∷ text (format_relative r.timestamp now)
        ∷ [])
    ∷ [])
