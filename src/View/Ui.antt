-- ===== src/View/Ui.antt =====
-- The shared presentational components: frontend/src/components/ui/ToneBadge.tsx, Panel.tsx,
-- EmptyState.tsx and PageHeader.tsx, and components/common/PageMeta.tsx. An absent property is `none`;
-- the pages give titles and actions that are not empty.
pub mod Silent
use guardian_os_ai.Base.{Bool, true, false, String, List, [], ◌∷◌, Option, none, some, ◌^^◌, ◌||◌}
use guardian_os_ai.Platform.{Platform}
use guardian_os_ai.Format.{Tone, gray, blue, amber, orange, red, green}
use guardian_os_ai.View.Dom.{
  Node, text, head, element_of, class, fragment, when, when_text, when_node,
}

unfoldable pub tone_class : Tone → String
tone_class gray = "bg-gray-100 text-gray-700 dark:bg-gray-800 dark:text-gray-300"
tone_class blue =
    "bg-blue-light-50 text-blue-light-700 dark:bg-blue-light-950 dark:text-blue-light-300"
tone_class amber = "bg-warning-50 text-warning-700 dark:bg-warning-950 dark:text-warning-300"
tone_class orange = "bg-orange-50 text-orange-700 dark:bg-orange-950 dark:text-orange-300"
tone_class red = "bg-error-50 text-error-700 dark:bg-error-950 dark:text-error-300"
tone_class green = "bg-success-50 text-success-700 dark:bg-success-950 dark:text-success-300"

unfoldable pub tone_badge : Tone → String → List Node → Node
tone_badge tone names children =
    element_of "span"
      (class (
          "inline-flex items-center gap-1 rounded-md px-2 py-0.5 text-xs font-medium uppercase tracking-wide "
          ^^ tone_class tone
          ^^ " "
          ^^ names)
        ∷ [])
      children

unfoldable pub given : Option Node → Bool
given none = false
given (some n) = true

unfoldable pub panel :
    Platform → Option Node → Option Node → Option Node → String → List Node → Node
panel P title subtitle actions names children =
    element_of "section"
      (class (
          P.clsx (
            "rounded-xl border border-gray-200 bg-white shadow-theme-xs dark:border-gray-800 dark:bg-gray-900"
            ∷ names ∷ []))
        ∷ [])
      (when (given title || given actions) (
          element_of "header"
            (class
                "flex flex-wrap items-center justify-between gap-2 border-b border-gray-200 px-4 py-3 dark:border-gray-800"
              ∷ [])
            (element_of "div" [] (
                when_node title (λ node.
                  element_of "h2" (class "text-sm font-semibold text-gray-800 dark:text-white" ∷ [])
                    (node ∷ []))
                ∷ when_node subtitle (λ node.
                  element_of "p" (class "text-xs text-gray-500 dark:text-gray-400" ∷ [])
                    (node ∷ []))
                ∷ [])
              ∷ when_node actions
                  (λ node. element_of "div" (class "flex items-center gap-2" ∷ []) (node ∷ []))
              ∷ []))
        ∷ element_of "div" (class "p-4" ∷ []) children
        ∷ [])

unfoldable pub empty_state : String → Option String → List Node → Node
empty_state title detail children =
    element_of "div"
      (class
          "flex flex-col items-center justify-center gap-2 rounded-lg border border-dashed border-gray-300 px-4 py-10 text-center dark:border-gray-700"
        ∷ [])
      (element_of "span" (class "text-sm font-medium text-gray-600 dark:text-gray-300" ∷ [])
          (text title ∷ [])
        ∷ when_text detail (λ s.
          element_of "span" (class "max-w-md text-xs text-gray-500 dark:text-gray-400" ∷ [])
            (text s ∷ []))
        ∷ fragment children
        ∷ [])

unfoldable pub page_header : String → Option String → Option Node → Node
page_header title description actions =
    element_of "div" (class "mb-5 flex flex-wrap items-start justify-between gap-3" ∷ []) (
      element_of "div" [] (
        element_of "h1" (class "text-xl font-semibold text-gray-900 dark:text-white" ∷ [])
          (text title ∷ [])
        ∷ when_text description (λ s.
          element_of "p" (class "mt-1 text-sm text-gray-500 dark:text-gray-400" ∷ []) (text s ∷ []))
        ∷ [])
      ∷ when_node actions
          (λ node. element_of "div" (class "flex items-center gap-2" ∷ []) (node ∷ []))
      ∷ [])

-- It renders nothing; its effects set the title of the document and the content of the description.
unfoldable pub page_meta : String → String → Node
page_meta title description = head (title ^^ " · GuardianOS-AI") description
