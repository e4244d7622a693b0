-- ===== src/View/Layout.antt =====
-- The frame of every page: frontend/src/layout/AppLayout.tsx and Backdrop.tsx.
pub mod Header
pub mod Navigation
pub mod Active
pub mod Offers
use guardian_os_ai.Base.{
  ℕ, ◌+◌, Bool, true, false, String, List, [], ◌∷◌, Option, none, some, map, length, take, head?,
  str_eq, ltb, ◌==◌, not, if◌then◌else◌, ◌||◌, ◌&&◌, ◌^^◌, decimal, or_else, Char, code, leb,
}
use guardian_os_ai.Platform.{Platform}
use guardian_os_ai.Format.{
  format_relative, short_exe, severity_tone, action_status_tone, threat_level, Tone, gray, blue,
  amber, orange, red, green,
}
use guardian_os_ai.Context.Guardian.{Guardian}
use Prim.Native.String
use guardian_os_ai.Context.Sidebar.{Sidebar, shown_expanded, toggle_sidebar, toggle_mobile_sidebar}
use guardian_os_ai.View.Overview.Figures.{learning_of, spelled}
use guardian_os_ai.View.Dom.{
  Node, Attr, nothing, text, attr, flag, on, on_change, on_check, class, element_of, fragment, each,
  when, when_text, option_or, join, refresh_all, ask_approve, ask_reject, ask_rollback, ask_label,
  select_report, filter_severity, filter_status, filter_kind, search_for, show_suspicious,
  type_token, save_token, clear_token, press_sidebar_toggle, press_backdrop, hover_sidebar,
  press_theme_toggle,
}
use guardian_os_ai.View.Ui.{tone_badge, panel, page_header, page_meta, empty_state}
use guardian_os_ai.View.Layout.Header.{app_header}
use guardian_os_ai.View.Layout.Navigation.{app_sidebar}

unfoldable pub backdrop : Sidebar → Node
backdrop s = when s.is_mobile_open (
    element_of "div"
      (class "fixed inset-0 z-40 bg-gray-900/50 lg:hidden" ∷ on "onClick" press_backdrop ∷ []) [])

unfoldable pub app_layout : Guardian → Sidebar → String → Node
app_layout g s path = element_of "div" (class "min-h-screen xl:flex" ∷ []) (
    element_of "div" [] (app_sidebar s path ∷ backdrop s ∷ [])
    ∷ element_of "div"
        (class (
            "flex-1 transition-all duration-300 ease-in-out "
            ^^ (if shown_expanded s || s.is_hovered then "lg:ml-[290px]" else "lg:ml-[90px]")
            ^^ " "
            ^^ (if s.is_mobile_open then "ml-0" else ""))
          ∷ [])
        (app_header g
          ∷ element_of "div" (class "p-4 mx-auto max-w-(--breakpoint-2xl) md:p-6" ∷ [])
              (element_of "Outlet" [] [] ∷ [])
          ∷ [])
    ∷ [])
