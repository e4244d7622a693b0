-- ===== src/View/Layout/Navigation.antt =====
-- The sidebar: frontend/src/layout/AppSidebar.tsx. `path` is the path of the location.
use package.text.Mathlib.Text.{starts_with}
use guardian_os_ai.Base.{
  Bool, true, false, String, List, [], ◌∷◌, Option, none, str_eq, not, if◌then◌else◌, ◌||◌, ◌&&◌,
  ◌^^◌,
}
use guardian_os_ai.Context.Sidebar.{Sidebar, shown_expanded}
use guardian_os_ai.View.Dom.{
  on_nothing, Node, Attr, text, attr, on, class, element_of, each, when, when_text, hover_sidebar,
}
use guardian_os_ai.View.Layout.Header.{brand}

pub record NavItem : Type 0 where
  pub name : String
  pub icon : String
  pub path : String
  pub badge : Option String

-- An icon is the name of its component.
abbrev pub nav_item : String → String → String → NavItem
nav_item name icon path = record { name = name; icon = icon; path = path; badge = none }

abbrev pub nav_items : List NavItem
nav_items =
    nav_item "Overview" "GridIcon" "/"
    ∷ nav_item "Threats" "AlertHexaIcon" "/threats"
    ∷ nav_item "Kernel Activity" "BoltIcon" "/kernel"
    ∷ nav_item "Processes" "ListIcon" "/processes"
    ∷ nav_item "AI Analysis" "PieChartIcon" "/analysis"
    ∷ nav_item "Response" "BoxCubeIcon" "/response"
    ∷ nav_item "System Health" "TableIcon" "/health"
    ∷ nav_item "Settings" "UserCircleIcon" "/settings"
    ∷ []

unfoldable pub is_active : String → String → Bool
is_active pathname path = if str_eq path "/" then str_eq pathname "/" else starts_with pathname path

unfoldable pub is_wide : Sidebar → Bool
is_wide s = shown_expanded s || s.is_hovered || s.is_mobile_open

-- `!isExpanded && setIsHovered(true)`, which does nothing while the sidebar is expanded.
unfoldable pub on_enter : Sidebar → Attr
on_enter s =
    if shown_expanded s then on_nothing "onMouseEnter" else on "onMouseEnter" (hover_sidebar true)

unfoldable pub nav_link : Sidebar → String → NavItem → Node
nav_link s path nav = element_of "li" [] (
    element_of "Link"
      (attr "to" nav.path
        ∷ class (
            "menu-item group "
            ^^ (if is_active path nav.path then "menu-item-active" else "menu-item-inactive"))
        ∷ [])
      (element_of "span"
          (class (
              "menu-item-icon-size "
              ^^ (if is_active path nav.path
                  then "menu-item-icon-active"
                  else "menu-item-icon-inactive"))
            ∷ [])
          (element_of nav.icon [] [] ∷ [])
        ∷ when (is_wide s) (element_of "span" (class "menu-item-text" ∷ []) (text nav.name ∷ []))
        ∷ when (is_wide s) (
            when_text nav.badge (λ badge.
              element_of "span"
                (class
                    "ml-auto rounded-md bg-brand-500/10 px-2 py-0.5 text-[10px] font-semibold text-brand-500 dark:text-brand-400"
                  ∷ [])
                (text (badge) ∷ [])))
        ∷ [])
    ∷ [])

unfoldable pub app_sidebar : Sidebar → String → Node
app_sidebar s path =
    element_of "aside"
      (class (
          "fixed mt-16 flex flex-col lg:mt-0 top-0 px-5 left-0 bg-white dark:bg-gray-900 dark:border-gray-800 text-gray-900 h-screen transition-all duration-300 ease-in-out z-50 border-r border-gray-200 \n        "
          ^^ (if shown_expanded s || s.is_mobile_open
              then "w-[290px]"
              else if s.is_hovered
              then "w-[290px]"
              else "w-[90px]")
          ^^ "\n        "
          ^^ (if s.is_mobile_open then "translate-x-0" else "-translate-x-full")
          ^^ "\n        lg:translate-x-0")
        ∷ on_enter s
        ∷ on "onMouseLeave" (hover_sidebar false)
        ∷ [])
      (element_of "div"
          (class (
              "py-8 flex "
              ^^ (if not (shown_expanded s) && not s.is_hovered
                  then "lg:justify-center"
                  else "justify-start"))
            ∷ [])
          (element_of "Link" (attr "to" "/" ∷ attr "aria-label" "GuardianOS-AI home" ∷ [])
              ((if is_wide s then brand false else brand true) ∷ [])
            ∷ [])
        ∷ element_of "nav"
            (class "flex flex-col overflow-y-auto duration-300 ease-linear no-scrollbar" ∷ [])
            (element_of "ul" (class "flex flex-col gap-1" ∷ [])
                (each (nav_link s path) nav_items ∷ [])
              ∷ element_of "div"
                  (class "mt-8 rounded-lg border border-gray-200 p-3 dark:border-gray-800" ∷ [])
                  (element_of "div" (class "flex items-center gap-2" ∷ []) (
                      element_of "PlugInIcon" (class "size-4 text-gray-400" ∷ []) []
                      ∷ element_of "span"
                          (class "text-xs font-medium text-gray-600 dark:text-gray-300" ∷ [])
                          (text "Kernel telemetry" ∷ [])
                      ∷ [])
                    ∷ element_of "p"
                        (class "mt-1 text-[11px] leading-4 text-gray-500 dark:text-gray-400" ∷ [])
                        (text
                            "eBPF / Linux audit / process events, normalized and scored by the GuardianOS-AI detection pipeline."
                          ∷ [])
                    ∷ [])
              ∷ [])
        ∷ [])
