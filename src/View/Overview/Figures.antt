-- ===== src/View/Overview/Figures.antt =====
-- frontend/src/pages/Overview.tsx: the figures of the first page. A number that is `undefined` renders
-- as nothing and is spelled out in a template.
use guardian_os_ai.Base.{
  ℕ, Bool, true, false, String, [], ◌∷◌, Option, none, some, length, ltb, if◌then◌else◌, ◌^^◌,
  decimal,
}
use guardian_os_ai.Api.Types.{high, critical, Health}
use guardian_os_ai.Format.{severity_counts, count_of}
use guardian_os_ai.Context.Guardian.{Guardian}
use guardian_os_ai.Pages.Overview.{distinct_pids}
use guardian_os_ai.View.Dom.{Node, text, class, element_of, when_text, option_or}

unfoldable pub learning_of : Option Health → Bool
learning_of none = true
learning_of (some h) = option_or h.learning (λ b. b) true

unfoldable pub is_true : Option Bool → Bool
is_true b = option_or b (λ x. x) false

unfoldable pub shown : Option ℕ → String
shown n = option_or n decimal ""

unfoldable pub spelled : Option ℕ → String
spelled n = option_or n decimal "undefined"

unfoldable pub stat_card : String → String → Option String → Node
stat_card label value detail =
    element_of "div"
      (class
          "rounded-xl border border-gray-200 bg-white p-4 shadow-theme-xs dark:border-gray-800 dark:bg-gray-900"
        ∷ [])
      (element_of "p"
          (class "text-xs font-medium uppercase tracking-wide text-gray-400 dark:text-gray-500"
            ∷ [])
          (text label ∷ [])
        ∷ element_of "p" (class "mt-2 text-2xl font-semibold text-gray-900 dark:text-white" ∷ [])
            (text value ∷ [])
        ∷ when_text detail (λ d.
          element_of "p" (class "mt-1 text-xs text-gray-500 dark:text-gray-400" ∷ [])
            (text (d) ∷ []))
        ∷ [])

unfoldable pub stat_cards : Guardian → Node
stat_cards g = element_of "div" (class "grid grid-cols-2 gap-4 lg:grid-cols-4" ∷ []) (
    stat_card "Threats" (option_or g.health (λ h. shown h.threats) (decimal (length g.threats)))
      (option_or g.health (λ h. some ("baseline " ^^ spelled h.baseline ^^ " chains")) none)
    ∷ stat_card "Critical" (decimal (count_of (severity_counts g.threats) critical))
        (some ((decimal (count_of (severity_counts g.threats) high)) ^^ " high"))
    ∷ stat_card "Kernel events" (option_or g.health (λ h. shown h.events_in_window) "0")
        (some "in current window")
    ∷ stat_card "Processes"
        (if ltb 0 (length g.events) then decimal (length (distinct_pids g.events [])) else "—")
        (some "observed in stream")
    ∷ [])
