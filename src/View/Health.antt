-- ===== src/View/Health.antt =====
-- frontend/src/pages/SystemHealth.tsx: the page of the pipeline's health. The `ok` of a row is
-- `null`, or a boolean that may be undefined.
pub mod Page
pub mod Offers
use guardian_os_ai.Base.{
  ℕ, ◌+◌, Bool, true, false, String, List, [], ◌∷◌, Option, none, some, map, length, take, head?,
  str_eq, ltb, ◌==◌, not, if◌then◌else◌, ◌||◌, ◌&&◌, ◌^^◌, decimal, or_else, leb,
}
use guardian_os_ai.Platform.{Platform}
use guardian_os_ai.Api.Types.{Health, Json, Fields, end, field, obj, ProviderHealth}
use guardian_os_ai.Format.{
  format_relative, short_exe, severity_tone, action_status_tone, Tone, gray, blue, amber, orange,
  red, green,
}
use guardian_os_ai.Context.Guardian.{Guardian}
use guardian_os_ai.View.Overview.Figures.{is_true, shown, spelled}
use guardian_os_ai.View.Dom.{
  Node, Attr, nothing, text, attr, flag, on, on_change, on_check, class, element_of, fragment, each,
  when, when_text, option_or, join, refresh_all, ask_approve, ask_reject, ask_rollback, ask_label,
  select_report, filter_severity, filter_status, filter_kind, search_for, show_suspicious,
  type_token, save_token, clear_token, press_sidebar_toggle, press_backdrop, hover_sidebar,
  press_theme_toggle,
}
use guardian_os_ai.View.Ui.{tone_badge, panel, page_header, page_meta, empty_state}

pub data Reading : Type 0 where
  unknown : Reading
  reading : Option Bool → Reading

unfoldable pub is_null : Reading → Bool
is_null unknown = true
is_null (reading b) = false

unfoldable pub holds : Reading → Bool
holds unknown = false
holds (reading b) = is_true b

-- `health.events_in_window >= 0`, which `undefined` fails.
unfoldable pub is_counted : Option ℕ → Bool
is_counted none = false
is_counted (some n) = leb 0 n

-- A time of zero is falsy.
unfoldable pub collect_time : Platform → Option ℕ → String
collect_time P none = "—"
collect_time P (some t) = if t == 0 then "—" else P.locale_default_time t

unfoldable pub fields_of : List (String × Json) → Fields
fields_of [] = end
fields_of ((k, v) ∷ more) = field k v (fields_of more)

unfoldable pub status_row : String → Reading → Option String → Node
status_row label ok detail =
    element_of "div"
      (class
          "flex items-center justify-between gap-3 rounded-lg border border-gray-200 px-3 py-2.5 dark:border-gray-800"
        ∷ [])
      (element_of "div" [] (
          element_of "p" (class "text-sm font-medium text-gray-800 dark:text-gray-100" ∷ [])
            (text label ∷ [])
          ∷ when_text detail
              (λ d. element_of "p" (class "text-[11px] text-gray-400" ∷ []) (text (d) ∷ []))
          ∷ [])
        ∷ (if is_null ok
            then tone_badge gray "" (text "unknown" ∷ [])
            else if holds ok
            then tone_badge green "" (text "up" ∷ [])
            else tone_badge red "" (text "down" ∷ []))
        ∷ [])

unfoldable pub metric : String → String → Node
metric label value =
    element_of "div"
      (class "rounded-lg border border-gray-200 px-3 py-2.5 dark:border-gray-800" ∷ [])
      (element_of "p" (class "text-[11px] uppercase tracking-wide text-gray-400" ∷ [])
          (text label ∷ [])
        ∷ element_of "p" (class "mt-1 font-mono text-sm text-gray-800 dark:text-gray-100" ∷ [])
            (text value ∷ [])
        ∷ [])

unfoldable pub metrics : Health → Node
metrics h = element_of "div" (class "grid grid-cols-2 gap-4 lg:grid-cols-4" ∷ []) (
    metric "Learning" (if is_true h.learning then "baseline" else "detecting")
    ∷ metric "Baseline chains" (shown h.baseline)
    ∷ metric "Threat reports" (shown h.threats)
    ∷ metric "Events in window" (shown h.events_in_window)
    ∷ [])
