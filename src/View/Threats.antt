-- ===== src/View/Threats.antt =====
-- frontend/src/pages/Threats.tsx: the page of all reports. `wanted` is the filter, `report_id` the
-- parameter of the route.
pub mod Offers
use guardian_os_ai.Base.{
  ℕ, Bool, String, [], ◌∷◌, Option, none, some, map, length, str_eq, ltb, if◌then◌else◌, ◌^^◌,
  decimal,
}
use guardian_os_ai.Platform.{Platform}
use guardian_os_ai.Api.Types.{Severity, ThreatReport, severity_name}
use guardian_os_ai.Format.{
  format_date_time, format_relative, short_exe, severity_tone, severity_order,
}
use guardian_os_ai.Context.Guardian.{Guardian}
use guardian_os_ai.Pages.Threats.{sorted, selected}
use guardian_os_ai.Pages.Analysis.{is_report}
use guardian_os_ai.View.Detail.{threat_detail}
use guardian_os_ai.View.Dom.{
  Node, text, attr, on, class, element_of, fragment, each, when_text, option_or, filter_severity,
}
use guardian_os_ai.View.Ui.{tone_badge, panel, page_header, page_meta, empty_state}

unfoldable pub filter_name : Option Severity → String
filter_name none = "all"
filter_name (some s) = severity_name s

unfoldable pub filter_button : Option Severity → Option Severity → Node
filter_button wanted sev =
    element_of "button"
      (on "onClick" (filter_severity sev)
        ∷ class (
            "rounded-md px-2.5 py-1 text-xs font-medium transition-colors "
            ^^ (if str_eq (filter_name wanted) (filter_name sev)
                then "bg-gray-900 text-white dark:bg-gray-100 dark:text-gray-900"
                else "border border-gray-200 text-gray-600 hover:bg-gray-100 dark:border-gray-800 dark:text-gray-300 dark:hover:bg-gray-800"))
        ∷ [])
      (text (filter_name sev) ∷ [])

unfoldable pub report_item : Platform → ℕ → Option String → ThreatReport → Node
report_item P now report_id t = element_of "li" [] (
    element_of "Link"
      (attr "to" ("/threats/" ^^ t.report_id)
        ∷ class (
            "block rounded-lg border px-3 py-2.5 transition-colors "
            ^^ (if is_report report_id t
                then "border-brand-500 bg-brand-50/60 dark:border-brand-600 dark:bg-brand-950/40"
                else "border-gray-200 hover:bg-gray-50 dark:border-gray-800 dark:hover:bg-gray-800/50"))
        ∷ [])
      (element_of "div" (class "flex items-center justify-between gap-2" ∷ []) (
          element_of "span"
            (class "truncate font-mono text-sm text-gray-800 dark:text-gray-100" ∷ [])
            (text (short_exe t.detection.exe)
              ∷ element_of "span" (class "text-gray-400" ∷ [])
                  (text " · pid " ∷ text (decimal t.detection.pid) ∷ [])
              ∷ [])
          ∷ tone_badge (severity_tone t.detection.severity) ""
              (text (severity_name t.detection.severity) ∷ [])
          ∷ [])
        ∷ element_of "p" (class "mt-1 text-[11px] text-gray-400" ∷ []) (
            text (format_date_time P t.timestamp)
            ∷ text " · "
            ∷ text (format_relative t.timestamp now)
            ∷ text " ·"
            ∷ text " "
            ∷ text (P.to_fixed t.detection.anomaly_score 2)
            ∷ [])
        ∷ element_of "p" (class "mt-1 line-clamp-2 text-xs text-gray-500 dark:text-gray-400" ∷ [])
            (text t.explanation.summary ∷ [])
        ∷ [])
    ∷ [])

unfoldable pub threats_page :
    Platform → ℕ → Guardian → (ℕ → Bool) → Bool → Option Severity → Option String → Node
threats_page P now g busy labelling wanted report_id = fragment (
    page_meta "Threats" "All detected threats with severity, evidence and recommended response."
    ∷ page_header "Threats"
        (some "Every behavior the engine flagged, with evidence and recommended response.")
        (some (
          element_of "div" (class "flex flex-wrap gap-1.5" ∷ [])
            (each (filter_button wanted) (none ∷ map (λ s. some s) severity_order) ∷ [])))
    ∷ when_text g.threats_error (λ message.
      element_of "div"
        (class
            "mb-4 rounded-md bg-error-50 px-3 py-2 text-xs text-error-700 dark:bg-error-950 dark:text-error-300"
          ∷ [])
        (text message ∷ []))
    ∷ element_of "div" (class "grid gap-4 lg:grid-cols-5" ∷ []) (
        panel P (some (text ("Reports (" ^^ (decimal (length (sorted wanted g.threats))) ^^ ")")))
          none none "lg:col-span-2"
          ((if ltb 0 (length (sorted wanted g.threats))
              then element_of "ul" (class "max-h-[70vh] space-y-2 overflow-y-auto pr-1" ∷ [])
                  (each (report_item P now report_id) (sorted wanted g.threats) ∷ [])
              else empty_state
                  (if str_eq (filter_name wanted) "all"
                    then "No threats reported"
                    else "No " ^^ (filter_name wanted) ^^ " threats")
                  (some
                    "The engine reports threats only when the detection pipeline flags behavior.")
                  [])
            ∷ [])
        ∷ element_of "div" (class "lg:col-span-3" ∷ []) (
            option_or (selected report_id g.threats) (λ r. threat_detail P now g busy labelling r)
              (panel P none none none "" (
                empty_state "Select a report"
                  (some
                    "Choose a report from the list to inspect its AI analysis, evidence and response actions.")
                  []
                ∷ []))
            ∷ [])
        ∷ [])
    ∷ [])
