-- ===== src/View/Response.antt =====
-- frontend/src/pages/Response.tsx: the page of all response actions.
pub mod Offers
use guardian_os_ai.Base.{
  ℕ, String, [], ◌∷◌, Option, none, some, length, str_eq, ltb, if◌then◌else◌, ◌^^◌, decimal,
}
use guardian_os_ai.Platform.{Platform}
use guardian_os_ai.Api.Types.{ActionStatus, status_name, action_type_name}
use guardian_os_ai.Format.{format_relative, short_exe, action_status_tone, red}
use guardian_os_ai.Context.Guardian.{Guardian}
use guardian_os_ai.Pages.Response.{ActionRow, statuses, rows}
use guardian_os_ai.View.Dom.{
  Node, text, attr, on, class, element_of, fragment, each, when, filter_status,
}
use guardian_os_ai.View.Ui.{tone_badge, panel, page_header, page_meta, empty_state}

unfoldable pub filter_name : Option ActionStatus → String
filter_name none = "all"
filter_name (some s) = status_name s

unfoldable pub filter_button : Option ActionStatus → Option ActionStatus → Node
filter_button wanted s =
    element_of "button"
      (on "onClick" (filter_status s)
        ∷ class (
            "rounded-md px-2.5 py-1 text-xs font-medium transition-colors "
            ^^ (if str_eq (filter_name wanted) (filter_name s)
                then "bg-gray-900 text-white dark:bg-gray-100 dark:text-gray-900"
                else "border border-gray-200 text-gray-600 hover:bg-gray-100 dark:border-gray-800 dark:text-gray-300 dark:hover:bg-gray-800"))
        ∷ [])
      (text (filter_name s) ∷ [])

unfoldable pub table_row : ℕ → ActionRow → Node
table_row now r =
    element_of "tr" (class "border-b border-gray-100 last:border-0 dark:border-gray-800/60" ∷ []) (
      element_of "td" (class "py-2 pr-3" ∷ []) (
        element_of "div" (class "flex items-center gap-2" ∷ []) (
          element_of "span"
            (class "font-mono text-xs font-semibold text-gray-800 dark:text-gray-100" ∷ [])
            (text (action_type_name r.action_type) ∷ [])
          ∷ when r.destructive (tone_badge red "text-[10px]" (text "destructive" ∷ []))
          ∷ [])
        ∷ element_of "p" (class "mt-0.5 max-w-[300px] truncate text-[11px] text-gray-400" ∷ [])
            (text r.description ∷ [])
        ∷ [])
      ∷ element_of "td" (class "py-2 pr-3 font-mono text-xs text-gray-500" ∷ [])
          (text (short_exe r.exe) ∷ text " · pid " ∷ text (decimal r.pid) ∷ [])
      ∷ element_of "td" (class "py-2 pr-3" ∷ [])
          (tone_badge (action_status_tone r.status) "" (text (status_name r.status) ∷ []) ∷ [])
      ∷ element_of "td" (class "py-2 pr-3" ∷ []) (
          element_of "Link"
            (attr "to" ("/threats/" ^^ r.report_id)
              ∷ class "font-mono text-xs text-brand-600 hover:underline dark:text-brand-400"
              ∷ [])
            (text r.report_id ∷ [])
          ∷ [])
      ∷ element_of "td" (class "py-2 text-xs text-gray-400" ∷ [])
          (text (format_relative r.ts now) ∷ [])
      ∷ [])

unfoldable pub response_page : Platform → ℕ → Guardian → Option ActionStatus → Node
response_page P now g wanted = fragment (
    page_meta "Response" "Recommended and executed response actions, approval-gated."
    ∷ page_header "Response"
        (some
          "Recommended corrective actions. Destructive actions never run without explicit approval.")
        (some (
          element_of "div" (class "flex flex-wrap gap-1.5" ∷ [])
            (each (filter_button wanted) statuses ∷ [])))
    ∷ panel P
        (some (text ("Response actions (" ^^ (decimal (length (rows wanted g.threats))) ^^ ")")))
        none none ""
        ((if ltb 0 (length (rows wanted g.threats))
            then element_of "div" (class "overflow-x-auto" ∷ []) (
                element_of "table" (class "w-full text-left text-sm" ∷ []) (
                  element_of "thead" [] (
                    element_of "tr"
                      (class
                          "border-b border-gray-200 text-[11px] uppercase tracking-wide text-gray-400 dark:border-gray-800"
                        ∷ [])
                      (element_of "th" (class "py-2 pr-3" ∷ []) (text "Action" ∷ [])
                        ∷ element_of "th" (class "py-2 pr-3" ∷ []) (text "Target" ∷ [])
                        ∷ element_of "th" (class "py-2 pr-3" ∷ []) (text "Status" ∷ [])
                        ∷ element_of "th" (class "py-2 pr-3" ∷ []) (text "Report" ∷ [])
                        ∷ element_of "th" (class "py-2" ∷ []) (text "When" ∷ [])
                        ∷ [])
                    ∷ [])
                  ∷ element_of "tbody" [] (each (table_row now) (rows wanted g.threats) ∷ [])
                  ∷ [])
                ∷ [])
            else empty_state "No response actions"
                (some "Response actions are generated from the playbook when behavior is flagged.")
                [])
          ∷ [])
    ∷ [])
