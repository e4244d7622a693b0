-- ===== src/View/Overview/Lists.antt =====
-- frontend/src/pages/Overview.tsx: the processes, the events and the latest report of the first page.
-- The chart is an element here; Pages/Chart.antt has its series.
use guardian_os_ai.Base.{
  ℕ, [], ◌∷◌, none, some, length, take, head?, ltb, if◌then◌else◌, ◌^^◌, decimal,
}
use guardian_os_ai.Platform.{Platform}
use guardian_os_ai.Api.Types.{KernelEvent, ThreatReport, severity_name, kind_name}
use guardian_os_ai.Format.{format_time, format_date_time, format_relative, short_exe, severity_tone}
use guardian_os_ai.Context.Guardian.{Guardian}
use guardian_os_ai.Pages.Overview.{Suspect, suspicious_processes}
use guardian_os_ai.View.Dom.{
  Node, nothing, text, attr, class, element_of, each, when_text, option_or,
}
use guardian_os_ai.View.Ui.{tone_badge, panel, empty_state}

unfoldable pub suspect_item : ℕ → Suspect → Node
suspect_item now p =
    element_of "li"
      (class
          "flex items-center justify-between gap-2 rounded-lg border border-gray-200 px-3 py-2 dark:border-gray-800"
        ∷ [])
      (element_of "div" (class "min-w-0" ∷ []) (
          element_of "p" (class "truncate font-mono text-sm text-gray-800 dark:text-gray-100" ∷ [])
            (text (short_exe p.exe) ∷ [])
          ∷ element_of "p" (class "text-[11px] text-gray-400" ∷ []) (
              text "pid "
              ∷ text (decimal p.pid)
              ∷ text " · "
              ∷ text (format_relative p.ts now)
              ∷ [])
          ∷ [])
        ∷ tone_badge (severity_tone p.severity) "" (text (severity_name p.severity) ∷ [])
        ∷ [])

unfoldable pub suspects_panel : Platform → ℕ → Guardian → Node
suspects_panel P now g =
    panel P (some (text "Recent suspicious processes"))
      (some (text "Processes implicated in detections")) none ""
      ((if ltb 0 (length (suspicious_processes g.threats))
          then element_of "ul" (class "space-y-2" ∷ [])
              (each (suspect_item now) (suspicious_processes g.threats) ∷ [])
          else empty_state "No suspicious processes" none [])
        ∷ [])

unfoldable pub event_row : Platform → KernelEvent → Node
event_row P e =
    element_of "tr" (class "border-b border-gray-100 last:border-0 dark:border-gray-800/60" ∷ []) (
      element_of "td" (class "py-2 pr-3 font-mono text-xs text-gray-500" ∷ [])
        (text (decimal e.pid) ∷ [])
      ∷ element_of "td" (class "py-2 pr-3 font-mono text-xs text-gray-700 dark:text-gray-300" ∷ [])
          (text (short_exe e.exe) ∷ [])
      ∷ element_of "td" (class "py-2 pr-3 text-xs text-gray-500 dark:text-gray-400" ∷ [])
          (text (kind_name e.kind) ∷ [])
      ∷ element_of "td" (class "py-2 pr-3 text-xs text-gray-400" ∷ [])
          (text (format_time P e.timestamp) ∷ [])
      ∷ [])

unfoldable pub kernel_panel : Platform → Guardian → Node
kernel_panel P g =
    panel P (some (text "Recent kernel activity"))
      (some (text "Latest events from the telemetry stream"))
      (some (
        element_of "Link"
          (attr "to" "/kernel"
            ∷ class "text-xs font-medium text-brand-600 hover:underline dark:text-brand-400"
            ∷ [])
          (text "View all →" ∷ [])))
      ""
      ((if ltb 0 (length g.events)
          then element_of "div" (class "overflow-x-auto" ∷ []) (
              element_of "table" (class "w-full text-left text-sm" ∷ []) (
                element_of "thead" [] (
                  element_of "tr"
                    (class
                        "border-b border-gray-200 text-[11px] uppercase tracking-wide text-gray-400 dark:border-gray-800"
                      ∷ [])
                    (element_of "th" (class "py-2 pr-3" ∷ []) (text "PID" ∷ [])
                      ∷ element_of "th" (class "py-2 pr-3" ∷ []) (text "Process" ∷ [])
                      ∷ element_of "th" (class "py-2 pr-3" ∷ []) (text "Event" ∷ [])
                      ∷ element_of "th" (class "py-2 pr-3" ∷ []) (text "Time" ∷ [])
                      ∷ [])
                  ∷ [])
                ∷ element_of "tbody" [] (each (event_row P) (take 8 g.events) ∷ [])
                ∷ [])
              ∷ [])
          else empty_state "No kernel events received"
              (some (
                if g.connected
                then "Waiting for telemetry…"
                else "Not connected to the engine. Start `python scripts/run_server.py`."))
              [])
        ∷ [])

unfoldable pub latest_report : Platform → ThreatReport → Node
latest_report P t = element_of "div" (class "space-y-3" ∷ []) (
    element_of "div" (class "flex items-center gap-2" ∷ []) (
      tone_badge (severity_tone t.detection.severity) ""
        (text (severity_name t.detection.severity) ∷ [])
      ∷ element_of "span" (class "font-mono text-xs text-gray-500" ∷ [])
          (text (short_exe t.detection.exe) ∷ text " · pid " ∷ text (decimal t.detection.pid) ∷ [])
      ∷ element_of "span" (class "text-xs text-gray-400" ∷ [])
          (text (format_date_time P t.timestamp) ∷ [])
      ∷ [])
    ∷ element_of "p" (class "text-sm leading-5 text-gray-700 dark:text-gray-300" ∷ [])
        (text "“" ∷ text t.explanation.summary ∷ text "”" ∷ [])
    ∷ when_text (head? t.explanation.reasons) (λ reason.
      element_of "p" (class "text-xs text-gray-500 dark:text-gray-400" ∷ []) (
        element_of "span" (class "font-semibold" ∷ []) (text "Why:" ∷ [])
        ∷ text " "
        ∷ text (reason)
        ∷ []))
    ∷ option_or (head? t.actions)
        (λ action. element_of "p" (class "text-xs text-gray-500 dark:text-gray-400" ∷ []) (
          element_of "span" (class "font-semibold" ∷ []) (text "Recommended:" ∷ [])
          ∷ text " "
          ∷ text action.description
          ∷ []))
        nothing
    ∷ element_of "Link"
        (attr "to" ("/threats/" ^^ t.report_id)
          ∷ class
              "inline-flex rounded-md bg-brand-600 px-3 py-1.5 text-xs font-medium text-white transition-colors hover:bg-brand-700"
          ∷ [])
        (text "Investigate" ∷ [])
    ∷ [])

unfoldable pub analysis_panel : Platform → Guardian → Node
analysis_panel P g =
    panel P (some (text "AI security analysis")) (some (text "Latest detection, explained"))
      (some (
        element_of "Link"
          (attr "to" "/analysis"
            ∷ class "text-xs font-medium text-brand-600 hover:underline dark:text-brand-400"
            ∷ [])
          (text "Open analysis →" ∷ [])))
      ""
      (option_or (head? g.threats) (λ t. latest_report P t)
          (empty_state "No AI analysis yet"
            (some
              "Analysis appears when the engine flags behavior that deviates from the baseline.")
            [])
        ∷ [])
