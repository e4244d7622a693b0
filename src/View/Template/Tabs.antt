-- ===== src/View/Template/Tabs.antt =====
-- frontend/src/components/common/ChartTab.tsx: three buttons, of which one is selected.
use guardian_os_ai.View.Dom.{Node, Intent, on, class, text, element_of}
use guardian_os_ai.Base.{[], Bool, true, false, String, ◌∷◌, if◌then◌else◌, ◌^^◌}

pub data TabOption : Type 0 where
  option_one option_two option_three : TabOption

-- `selected === option`
abbrev pub same_option : TabOption → TabOption → Bool
same_option option_one option_one = true
same_option option_two option_two = true
same_option option_three option_three = true
same_option _ _ = false

unfoldable pub button_class : TabOption → TabOption → String
button_class selected option =
    if same_option selected option
    then "shadow-theme-xs text-gray-900 dark:text-white bg-white dark:bg-gray-800"
    else "text-gray-500 dark:text-gray-400"

-- A button, which `choose` says what it asks for: to select its option.
unfoldable pub tab_button : (TabOption → Intent) → TabOption → TabOption → String → Node
unfolding button_class
tab_button choose selected option label =
    element_of "button"
      (on "onClick" (choose option)
        ∷ class (
            "px-3 py-2 font-medium w-full rounded-md text-theme-sm hover:text-gray-900   dark:hover:text-white "
            ^^ button_class selected option)
        ∷ [])
      (text label ∷ [])

-- `useState("optionOne")`
abbrev pub initial_option : TabOption
initial_option = option_one

unfoldable pub chart_tab : (TabOption → Intent) → TabOption → Node
unfolding tab_button
chart_tab choose selected =
    element_of "div"
      (class "flex items-center gap-0.5 rounded-lg bg-gray-100 p-0.5 dark:bg-gray-900" ∷ [])
      (tab_button choose selected option_one "Monthly"
        ∷ tab_button choose selected option_two "Quarterly"
        ∷ tab_button choose selected option_three "Annually"
        ∷ [])
