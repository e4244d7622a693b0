-- ===== src/View/Template/Button.antt =====
-- frontend/src/components/ui/button/Button.tsx.
use guardian_os_ai.Base.{Bool, String, List, [], ◌∷◌, Option, none, some, if◌then◌else◌, ◌^^◌}
use guardian_os_ai.View.Dom.{
  Node, Attr, Intent, flag, on, on_nothing, class, element_of, fragment, when_node,
}

pub data ButtonSize : Type 0 where
  sm md : ButtonSize

pub data ButtonVariant : Type 0 where
  primary outline : ButtonVariant

unfoldable pub size_class : ButtonSize → String
size_class sm = "px-4 py-3 text-sm"
size_class md = "px-5 py-3.5 text-sm"

unfoldable pub variant_class : ButtonVariant → String
variant_class primary =
    "bg-brand-500 text-white shadow-theme-xs hover:bg-brand-600 disabled:bg-brand-300"
variant_class outline =
    "bg-white text-gray-700 ring-1 ring-inset ring-gray-300 hover:bg-gray-50 dark:bg-gray-800 dark:text-gray-400 dark:ring-gray-700 dark:hover:bg-white/[0.03] dark:hover:text-gray-300"

-- A property that is a handler or `undefined`.
abbrev pub handler : Option Intent → Attr
handler none = on_nothing "onClick"
handler (some intent) = on "onClick" intent

unfoldable pub button :
    ButtonSize
    → ButtonVariant
    → Option Node
    → Option Node
    → Option Intent
    → String
    → Bool
    → List Node
    → Node
button size variant start_icon end_icon on_click names disabled children =
    element_of "button"
      (class (
          "inline-flex items-center justify-center gap-2 rounded-lg transition "
          ^^ names
          ^^ " "
          ^^ (size_class size)
          ^^ " "
          ^^ (variant_class variant)
          ^^ " "
          ^^ (if disabled then "cursor-not-allowed opacity-50" else ""))
        ∷ handler on_click
        ∷ flag "disabled" disabled
        ∷ [])
      (when_node start_icon (λ icon. element_of "span" (class "flex items-center" ∷ []) (icon ∷ []))
        ∷ fragment children
        ∷ when_node end_icon
            (λ icon. element_of "span" (class "flex items-center" ∷ []) (icon ∷ []))
        ∷ [])
