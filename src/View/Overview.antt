-- ===== src/View/Overview.antt =====
-- frontend/src/pages/Overview.tsx: the first page.
pub mod Figures
pub mod Lists
pub mod Offers
use guardian_os_ai.Base.{
  ℕ, ◌+◌, Bool, true, false, String, List, [], ◌∷◌, Option, none, some, map, length, take, head?,
  str_eq, ltb, ◌==◌, not, if◌then◌else◌, ◌||◌, ◌&&◌, ◌^^◌, decimal, or_else,
}
use guardian_os_ai.Platform.{Platform}
use guardian_os_ai.Api.Types.{
  Severity, info, low, medium, high, critical, Health, KernelEvent, ThreatReport, severity_name,
  kind_name,
}
use guardian_os_ai.Format.{
  format_relative, short_exe, severity_tone, action_status_tone, threat_level, severity_counts,
  count_of, Tone, gray, blue, amber, orange, red, green,
}
use guardian_os_ai.Context.Guardian.{Guardian}
use guardian_os_ai.Pages.Overview.{Suspect, suspicious_processes, distinct_pids}
use guardian_os_ai.View.Overview.Figures.{learning_of, is_true, stat_cards}
use guardian_os_ai.View.Overview.Lists.{suspects_panel, kernel_panel, analysis_panel}
use guardian_os_ai.View.Dom.{
  Node, Attr, nothing, text, attr, flag, on, on_change, on_check, class, element_of, fragment, each,
  when, when_text, option_or, join, refresh_all, ask_approve, ask_reject, ask_rollback, ask_label,
  select_report, filter_severity, filter_status, filter_kind, search_for, show_suspicious,
  type_token, save_token, clear_token, press_sidebar_toggle, press_backdrop, hover_sidebar,
  press_theme_toggle,
}
use guardian_os_ai.View.Ui.{tone_badge, panel, page_header, page_meta, empty_state}

-- The order of the counts at the foot of the page.
abbrev pub severity_labels : List Severity
severity_labels = critical ∷ high ∷ medium ∷ low ∷ info ∷ []

unfoldable pub overview_page : Platform → ℕ → Guardian → Node
overview_page P now g = fragment (
    page_meta "Overview" "Live security posture, threat timeline and kernel activity."
    ∷ page_header "Security Overview"
        (some "Live posture derived from the GuardianOS-AI detection pipeline.")
        (some (
          tone_badge ((threat_level g.threats (learning_of g.health)).tone) "px-3 py-1" (
            text "SYSTEM STATUS: "
            ∷ text ((threat_level g.threats (learning_of g.health)).label)
            ∷ [])))
    ∷ stat_cards g
    ∷ element_of "div" (class "mt-4 grid gap-4 lg:grid-cols-3" ∷ []) (
        element_of "div" (class "lg:col-span-2" ∷ []) (
          panel P (some (text "Threat activity timeline"))
            (some (text "Flagged reports over time (real detections)")) none ""
            (element_of "EventChart" [] []
              ∷ when (length g.threats == 0) (
                  empty_state "No detections yet"
                    (some (
                      if option_or g.health (λ h. is_true h.learning) false
                      then "The engine is still learning the baseline. Detections will appear once it switches to detection mode."
                      else "The engine is monitoring but has not flagged any behavior yet."))
                    [])
              ∷ [])
          ∷ [])
        ∷ suspects_panel P now g
        ∷ [])
    ∷ element_of "div" (class "mt-4 grid gap-4 lg:grid-cols-2" ∷ [])
        (kernel_panel P g ∷ analysis_panel P g ∷ [])
    ∷ element_of "p" (class "mt-4 text-right text-[11px] text-gray-400 dark:text-gray-500" ∷ []) (
        each
          (λ s. element_of "span" (class "ml-2" ∷ []) (
            text (severity_name s)
            ∷ text ": "
            ∷ text (decimal (count_of (severity_counts g.threats) s))
            ∷ []))
          severity_labels
        ∷ [])
    ∷ [])
