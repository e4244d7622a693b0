-- ===== src/View/Health/Page.antt =====
-- frontend/src/pages/SystemHealth.tsx: the panels and the page.
use guardian_os_ai.Base.{[], ◌∷◌, none, some, length, ltb, if◌then◌else◌, ◌^^◌, decimal}
use guardian_os_ai.Platform.{Platform}
use guardian_os_ai.Api.Types.{Health, obj}
use guardian_os_ai.Context.Guardian.{Guardian}
use guardian_os_ai.View.Overview.Figures.{is_true, spelled}
use guardian_os_ai.View.Health.{
  reading, is_counted, collect_time, fields_of, status_row, metric, metrics,
}
use guardian_os_ai.View.Dom.{
  Node, text, on, class, element_of, fragment, when, when_text, option_or, refresh_all,
}
use guardian_os_ai.View.Ui.{panel, page_header, page_meta, empty_state}

unfoldable pub pipeline_panel : Platform → Guardian → Health → Node
pipeline_panel P g h =
    panel P (some (text "Monitoring pipeline")) (some (text "Detection readiness")) none "" (
      element_of "div" (class "space-y-2" ∷ []) (
        status_row "Stream connection" (reading (some g.connected))
          (some (if g.connected then "WebSocket live" else "WebSocket disconnected (polling)"))
        ∷ status_row "Event ingestion" (reading (some (is_counted h.events_in_window)))
            (some ((spelled h.events_in_window) ^^ " events in the current analysis window"))
        ∷ status_row "Detection engine" (reading h.ready) (
            some (
              if is_true h.learning
              then "still learning the behavioral baseline"
              else "ready (" ^^ (spelled h.baseline) ^^ " baseline chains)"))
        ∷ [])
      ∷ [])

unfoldable pub provider_panel : Platform → Health → Node
provider_panel P h =
    panel P (some (text "Kernel provider"))
      (some
        (text (option_or h.telemetry (λ tel. "provider: " ^^ tel.provider) "no provider reported")))
      none ""
      (option_or h.telemetry
          (λ tel. element_of "div" (class "space-y-2" ∷ []) (
            status_row "Provider running" (reading (some tel.running)) (tel.last_error)
            ∷ element_of "div" (class "grid grid-cols-2 gap-2 sm:grid-cols-3" ∷ []) (
                metric "Events delivered" (decimal tel.events_delivered)
                ∷ metric "Drops (total)" (decimal tel.drops_total)
                ∷ metric "Drops (recent)" (decimal tel.drops_recent)
                ∷ metric "Rate limited" (decimal tel.rate_limited)
                ∷ metric "Restarts" (decimal tel.restarts)
                ∷ metric "Last collect" (collect_time P tel.last_collect_at)
                ∷ [])
            ∷ when (ltb 0 (length tel.source)) (
                element_of "div" (class "pt-1" ∷ []) (
                  element_of "p"
                    (class "mb-1 text-[11px] uppercase tracking-wide text-gray-400" ∷ [])
                    (text "Provider source" ∷ [])
                  ∷ element_of "pre"
                      (class
                          "overflow-x-auto rounded-md bg-gray-50 p-2 font-mono text-[11px] text-gray-600 dark:bg-gray-800 dark:text-gray-300"
                        ∷ [])
                      (text (P.stringify_indented (obj (fields_of tel.source))) ∷ [])
                  ∷ []))
            ∷ []))
          (empty_state "No telemetry health" (some "The pipeline did not report provider health.")
            [])
        ∷ [])

unfoldable pub health_page : Platform → Guardian → Node
health_page P g = fragment (
    page_meta "System Health"
      "Status of the GuardianOS-AI monitoring pipeline and kernel providers."
    ∷ page_header "System Health" (some "Status of the GuardianOS-AI monitoring pipeline.") (
        some (
          element_of "button"
            (on "onClick" refresh_all
              ∷ class
                  "rounded-md border border-gray-200 px-3 py-1.5 text-xs font-medium text-gray-600 transition-colors hover:bg-gray-100 dark:border-gray-800 dark:text-gray-300 dark:hover:bg-gray-800"
              ∷ [])
            (text "Refresh" ∷ [])))
    ∷ when_text g.health_error (λ message.
      element_of "div"
        (class
            "mb-4 rounded-md bg-error-50 px-3 py-2 text-xs text-error-700 dark:bg-error-950 dark:text-error-300"
          ∷ [])
        (text message ∷ []))
    ∷ option_or g.health
        (λ h. fragment (
          metrics h
          ∷ element_of "div" (class "mt-4 grid gap-4 lg:grid-cols-2" ∷ [])
              (pipeline_panel P g h ∷ provider_panel P h ∷ [])
          ∷ element_of "p" (class "mt-3 text-xs text-gray-400" ∷ []) (
              text
                "CPU/memory/uptime are not currently exposed by the API; they are reported by the kernel providers themselves. Telemetry here reflects the real provider health."
              ∷ [])
          ∷ []))
        (panel P none none none "" (
          empty_state "No health data"
            (some "Start the engine with `python scripts/run_server.py` to see pipeline health.") []
          ∷ []))
    ∷ [])
