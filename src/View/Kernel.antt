-- ===== src/View/Kernel.antt =====
-- frontend/src/pages/KernelActivity.tsx: the page of the telemetry stream. A kind is `none` for "all".
pub mod Offers
use guardian_os_ai.Base.{
  String, [], ◌∷◌, Option, none, some, length, take, str_eq, ltb, not, if◌then◌else◌, ◌^^◌, decimal,
  truthy,
}
use guardian_os_ai.Platform.{Platform}
use guardian_os_ai.Api.Types.{
  EventKind, KernelEvent, privilege_escalation, network_connect, file_write, kind_name, kind_eq,
}
use guardian_os_ai.Format.{format_time, short_exe}
use guardian_os_ai.Context.Guardian.{Guardian}
use guardian_os_ai.Pages.Kernel.{event_kinds, filtered}
use guardian_os_ai.View.Dom.{
  Node, text, attr, on, on_change, class, element_of, fragment, each, option_or, join, refresh_all,
  filter_kind, search_for,
}
use guardian_os_ai.View.Ui.{panel, page_header, page_meta, empty_state}

unfoldable pub kind_filter_name : Option EventKind → String
kind_filter_name none = "all"
kind_filter_name (some k) = kind_name k

-- `e.cmdline?.slice(0, 3).join(" ") || shortExe(e.exe)`
unfoldable pub command_text : KernelEvent → String
command_text e =
    let command = option_or e.cmdline (λ words. join " " (take 3 words)) "" in
    if truthy command then command else short_exe e.exe

unfoldable pub table_row : Platform → KernelEvent → Node
table_row P e =
    element_of "tr"
      (class "border-b border-gray-100 align-top last:border-0 dark:border-gray-800/60" ∷ [])
      (element_of "td" (class "py-2 pr-3 whitespace-nowrap font-mono text-xs text-gray-400" ∷ [])
          (text (format_time P e.timestamp) ∷ [])
        ∷ element_of "td" (class "py-2 pr-3 font-mono text-xs text-gray-500" ∷ [])
            (text (decimal e.pid) ∷ [])
        ∷ element_of "td"
            (class "py-2 pr-3 font-mono text-xs text-gray-700 dark:text-gray-300" ∷ [])
            (text (short_exe e.exe) ∷ [])
        ∷ element_of "td" (class "py-2 pr-3" ∷ []) (
            element_of "span"
              (class (
                  "rounded px-1.5 py-0.5 font-mono text-[11px] "
                  ^^ (if kind_eq e.kind privilege_escalation
                      then "bg-error-50 text-error-700 dark:bg-error-950 dark:text-error-300"
                      else if kind_eq e.kind network_connect
                      then "bg-blue-light-50 text-blue-light-700 dark:bg-blue-light-950 dark:text-blue-light-300"
                      else if kind_eq e.kind file_write
                      then "bg-warning-50 text-warning-700 dark:bg-warning-950 dark:text-warning-300"
                      else "bg-gray-100 text-gray-600 dark:bg-gray-800 dark:text-gray-400"))
                ∷ [])
              (text (kind_name e.kind) ∷ [])
            ∷ [])
        ∷ element_of "td"
            (class
                "max-w-[240px] truncate py-2 pr-3 font-mono text-xs text-gray-500 dark:text-gray-400"
              ∷ [])
            (text (command_text e) ∷ [])
        ∷ element_of "td"
            (class "max-w-[260px] truncate py-2 font-mono text-[11px] text-gray-400" ∷ [])
            (text (option_or e.details (λ details. P.stringify details) "—") ∷ [])
        ∷ [])

unfoldable pub kernel_page : Platform → Guardian → Option EventKind → String → Node
kernel_page P g kind search = fragment (
    page_meta "Kernel Activity" "Raw kernel-level telemetry from the audit/eBPF/process providers."
    ∷ page_header "Kernel Activity"
        (some "Raw telemetry stream as collected from the kernel providers.")
        (some (
          element_of "button"
            (on "onClick" refresh_all
              ∷ class
                  "rounded-md border border-gray-200 px-3 py-1.5 text-xs font-medium text-gray-600 transition-colors hover:bg-gray-100 dark:border-gray-800 dark:text-gray-300 dark:hover:bg-gray-800"
              ∷ [])
            (text "Refresh" ∷ [])))
    ∷ panel P (some (text "Telemetry stream"))
        (some (
          text (
            (decimal (length (filtered P kind search g.events)))
            ^^ " events shown"
            ^^ (if not (str_eq (kind_filter_name kind) "all")
                then " · kind: " ^^ (kind_filter_name kind)
                else ""))))
        (some (
          element_of "div" (class "flex flex-wrap items-center gap-2" ∷ []) (
            element_of "select"
              (attr "value" (kind_filter_name kind)
                ∷ on_change filter_kind
                ∷ class
                    "rounded-lg border border-gray-200 bg-white px-2.5 py-1.5 text-xs text-gray-700 focus:outline-none dark:border-gray-800 dark:bg-gray-900 dark:text-gray-200"
                ∷ [])
              (each
                  (λ k.
                    element_of "option" (attr "value" (kind_filter_name k) ∷ [])
                      (text (kind_filter_name k) ∷ []))
                  event_kinds
                ∷ [])
            ∷ element_of "input"
                (attr "value" search
                  ∷ on_change search_for
                  ∷ attr "placeholder" "Search pid / exe / details…"
                  ∷ class
                      "w-52 rounded-lg border border-gray-200 bg-white px-2.5 py-1.5 text-xs text-gray-700 placeholder:text-gray-400 focus:outline-none dark:border-gray-800 dark:bg-gray-900 dark:text-gray-200"
                  ∷ [])
                []
            ∷ [])))
        ""
        ((if ltb 0 (length (filtered P kind search g.events))
            then element_of "div" (class "max-h-[65vh] overflow-auto" ∷ []) (
                element_of "table" (class "w-full text-left text-sm" ∷ []) (
                  element_of "thead" (class "sticky top-0 bg-white dark:bg-gray-900" ∷ []) (
                    element_of "tr"
                      (class
                          "border-b border-gray-200 text-[11px] uppercase tracking-wide text-gray-400 dark:border-gray-800"
                        ∷ [])
                      (element_of "th" (class "py-2 pr-3" ∷ []) (text "Time" ∷ [])
                        ∷ element_of "th" (class "py-2 pr-3" ∷ []) (text "PID" ∷ [])
                        ∷ element_of "th" (class "py-2 pr-3" ∷ []) (text "Process" ∷ [])
                        ∷ element_of "th" (class "py-2 pr-3" ∷ []) (text "Event" ∷ [])
                        ∷ element_of "th" (class "py-2 pr-3" ∷ []) (text "Command" ∷ [])
                        ∷ element_of "th" (class "py-2" ∷ []) (text "Detail" ∷ [])
                        ∷ [])
                    ∷ [])
                  ∷ element_of "tbody" []
                      (each (table_row P) (filtered P kind search g.events) ∷ [])
                  ∷ [])
                ∷ [])
            else empty_state "No events match"
                (some (
                  option_or g.events_error (λ message. message)
                    "Try clearing the filter, or confirm the engine is running."))
                [])
          ∷ [])
    ∷ [])
