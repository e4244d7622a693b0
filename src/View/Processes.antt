-- ===== src/View/Processes.antt =====
-- frontend/src/pages/Processes.tsx: the page of the processes that were observed.
pub mod Offers
use guardian_os_ai.Base.{
  ℕ, Bool, [], ◌∷◌, none, some, length, take, ltb, if◌then◌else◌, ◌^^◌, decimal,
}
use guardian_os_ai.Platform.{Platform}
use guardian_os_ai.Api.Types.{severity_name}
use guardian_os_ai.Format.{format_relative, short_exe, severity_tone}
use guardian_os_ai.Context.Guardian.{Guardian}
use guardian_os_ai.Pages.Processes.{ProcRow, rows}
use guardian_os_ai.View.Dom.{
  Node, text, attr, flag, on_check, class, element_of, fragment, each, option_or, join,
  show_suspicious,
}
use guardian_os_ai.View.Ui.{tone_badge, panel, page_header, page_meta, empty_state}

unfoldable pub table_row : ℕ → ProcRow → Node
table_row now row =
    element_of "tr" (class "border-b border-gray-100 last:border-0 dark:border-gray-800/60" ∷ []) (
      element_of "td" (class "py-2 pr-3 font-mono text-xs text-gray-500" ∷ [])
        (text (decimal row.pid) ∷ [])
      ∷ element_of "td" (class "py-2 pr-3 font-mono text-xs text-gray-700 dark:text-gray-300" ∷ [])
          (text (short_exe row.exe)
            ∷ element_of "span" (class "block text-[10px] text-gray-400" ∷ []) (text row.exe ∷ [])
            ∷ [])
      ∷ element_of "td" (class "py-2 pr-3 text-xs text-gray-500" ∷ [])
          (text (decimal row.event_count) ∷ [])
      ∷ element_of "td" (class "py-2 pr-3 text-[11px] text-gray-400" ∷ []) (
          text (join ", " (take 3 row.kinds))
          ∷ text (if ltb 3 (length row.kinds) then "…" else "")
          ∷ [])
      ∷ element_of "td" (class "py-2 pr-3 text-xs text-gray-400" ∷ [])
          (text (format_relative row.last_seen now) ∷ [])
      ∷ element_of "td" (class "py-2" ∷ []) (
          option_or row.severity
            (λ severity.
              element_of "Link"
                (attr "to" ("/threats/" ^^ (option_or row.report_id (λ id. id) "null")) ∷ [])
                (tone_badge (severity_tone severity) "" (text (severity_name severity) ∷ []) ∷ []))
            (element_of "span" (class "text-xs text-gray-400" ∷ []) (text "normal" ∷ []))
          ∷ [])
      ∷ [])

unfoldable pub processes_page : Platform → ℕ → Guardian → Bool → Node
processes_page P now g suspicious_only = fragment (
    page_meta "Processes"
      "Processes observed in the telemetry stream, cross-referenced with detections."
    ∷ page_header "Processes"
        (some "Processes observed in the telemetry stream, cross-referenced with detections.")
        (some (
          element_of "label"
            (class "flex cursor-pointer items-center gap-2 text-xs text-gray-600 dark:text-gray-300"
              ∷ [])
            (element_of "input"
                (attr "type" "checkbox"
                  ∷ flag "checked" suspicious_only
                  ∷ on_check show_suspicious
                  ∷ class "size-3.5 accent-brand-600"
                  ∷ [])
                []
              ∷ text "Suspicious only"
              ∷ [])))
    ∷ panel P
        (some (
          text (
            "Observed processes ("
            ^^ (decimal (length (rows suspicious_only g.events g.threats)))
            ^^ ")")))
        none none ""
        ((if ltb 0 (length (rows suspicious_only g.events g.threats))
            then element_of "div" (class "overflow-x-auto" ∷ []) (
                element_of "table" (class "w-full text-left text-sm" ∷ []) (
                  element_of "thead" [] (
                    element_of "tr"
                      (class
                          "border-b border-gray-200 text-[11px] uppercase tracking-wide text-gray-400 dark:border-gray-800"
                        ∷ [])
                      (element_of "th" (class "py-2 pr-3" ∷ []) (text "PID" ∷ [])
                        ∷ element_of "th" (class "py-2 pr-3" ∷ []) (text "Process" ∷ [])
                        ∷ element_of "th" (class "py-2 pr-3" ∷ []) (text "Events" ∷ [])
                        ∷ element_of "th" (class "py-2 pr-3" ∷ []) (text "Kinds" ∷ [])
                        ∷ element_of "th" (class "py-2 pr-3" ∷ []) (text "Last seen" ∷ [])
                        ∷ element_of "th" (class "py-2" ∷ []) (text "Status" ∷ [])
                        ∷ [])
                    ∷ [])
                  ∷ element_of "tbody" []
                      (each (table_row now) (rows suspicious_only g.events g.threats) ∷ [])
                  ∷ [])
                ∷ [])
            else empty_state "No processes observed"
                (some "The process list is derived from the live telemetry stream.") [])
          ∷ [])
    ∷ [])
