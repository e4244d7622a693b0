-- ===== src/View/Template/Badge.antt =====
-- frontend/src/components/ui/badge/Badge.tsx.
use guardian_os_ai.Base.{String, List, [], ◌∷◌, Option, ◌^^◌}
use guardian_os_ai.View.Dom.{Node, class, element_of, fragment, when_node}

pub data BadgeVariant : Type 0 where
  light_variant solid : BadgeVariant

pub data BadgeSize : Type 0 where
  sm md : BadgeSize

pub data BadgeColor : Type 0 where
  primary success error warning info light dark : BadgeColor

unfoldable pub size_style : BadgeSize → String
size_style sm = "text-theme-xs"
size_style md = "text-sm"

unfoldable pub color_style : BadgeVariant → BadgeColor → String
color_style light_variant primary =
    "bg-brand-50 text-brand-500 dark:bg-brand-500/15 dark:text-brand-400"
color_style light_variant success =
    "bg-success-50 text-success-600 dark:bg-success-500/15 dark:text-success-500"
color_style light_variant error =
    "bg-error-50 text-error-600 dark:bg-error-500/15 dark:text-error-500"
color_style light_variant warning =
    "bg-warning-50 text-warning-600 dark:bg-warning-500/15 dark:text-orange-400"
color_style light_variant info =
    "bg-blue-light-50 text-blue-light-500 dark:bg-blue-light-500/15 dark:text-blue-light-500"
color_style light_variant light = "bg-gray-100 text-gray-700 dark:bg-white/5 dark:text-white/80"
color_style light_variant dark = "bg-gray-500 text-white dark:bg-white/5 dark:text-white"
color_style solid primary = "bg-brand-500 text-white dark:text-white"
color_style solid success = "bg-success-500 text-white dark:text-white"
color_style solid error = "bg-error-500 text-white dark:text-white"
color_style solid warning = "bg-warning-500 text-white dark:text-white"
color_style solid info = "bg-blue-light-500 text-white dark:text-white"
color_style solid light = "bg-gray-400 dark:bg-white/5 text-white dark:text-white/80"
color_style solid dark = "bg-gray-700 text-white dark:text-white"

unfoldable pub badge :
    BadgeVariant → BadgeColor → BadgeSize → Option Node → Option Node → List Node → Node
badge variant color size start_icon end_icon children =
    element_of "span"
      (class (
          "inline-flex items-center px-2.5 py-0.5 justify-center gap-1 rounded-full font-medium"
          ^^ " "
          ^^ (size_style size)
          ^^ " "
          ^^ (color_style variant color))
        ∷ [])
      (when_node start_icon (λ icon. element_of "span" (class "mr-1" ∷ []) (icon ∷ []))
        ∷ fragment children
        ∷ when_node end_icon (λ icon. element_of "span" (class "ml-1" ∷ []) (icon ∷ []))
        ∷ [])
