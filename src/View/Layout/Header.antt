-- ===== src/View/Layout/Header.antt =====
-- The top of every page: frontend/src/layout/AppHeader.tsx, components/Brand.tsx and
-- components/common/ThemeToggleButton.tsx.
use guardian_os_ai.Base.{ℕ, Bool, false, [], ◌∷◌, not, if◌then◌else◌, ◌^^◌, leb}
use guardian_os_ai.Format.{threat_level}
use guardian_os_ai.Context.Guardian.{Guardian}
use guardian_os_ai.Context.Sidebar.{Sidebar, toggle_sidebar, toggle_mobile_sidebar}
use guardian_os_ai.View.Overview.Figures.{learning_of, spelled}
use guardian_os_ai.View.Dom.{
  Node, text, attr, on, class, element_of, when, option_or, press_sidebar_toggle,
  press_theme_toggle,
}
use guardian_os_ai.View.Ui.{tone_badge}

unfoldable pub brand : Bool → Node
brand compact = element_of "div" (class "flex items-center gap-2.5" ∷ []) (
    element_of "svg"
      (attr "width" (if compact then "28" else "32")
        ∷ attr "height" (if compact then "28" else "32")
        ∷ attr "viewBox" "0 0 32 32"
        ∷ attr "fill" "none"
        ∷ attr "xmlns" "http://www.w3.org/2000/svg"
        ∷ attr "aria-hidden" "true"
        ∷ [])
      (element_of "path"
          (attr "d" "M16 2.5 27 6.5v8.2c0 7.4-4.7 12.4-11 15.3C9.7 27.1 5 22.1 5 14.7V6.5L16 2.5Z"
            ∷ class "fill-brand-500 dark:fill-brand-600"
            ∷ [])
          []
        ∷ element_of "path"
            (attr "d" "m11.5 15.8 3 3 6-6.2"
              ∷ attr "stroke" "#fff"
              ∷ attr "strokeWidth" "2.2"
              ∷ attr "strokeLinecap" "round"
              ∷ attr "strokeLinejoin" "round"
              ∷ [])
            []
        ∷ [])
    ∷ when (not compact) (
        element_of "div" (class "leading-tight" ∷ []) (
          element_of "span"
            (class "block text-base font-semibold tracking-tight text-gray-900 dark:text-white"
              ∷ [])
            (text "Guardian"
              ∷ element_of "span" (class "text-brand-500 dark:text-brand-400" ∷ []) (text "OS" ∷ [])
              ∷ text "-AI"
              ∷ [])
          ∷ element_of "span"
              (class
                  "block text-[10px] font-medium uppercase tracking-[0.2em] text-gray-400 dark:text-gray-500"
                ∷ [])
              (text "Kernel Defense" ∷ [])
          ∷ []))
    ∷ [])

unfoldable pub theme_toggle_button : Node
theme_toggle_button =
    element_of "button"
      (on "onClick" press_theme_toggle
        ∷ class
            "relative flex items-center justify-center text-gray-500 transition-colors bg-white border border-gray-200 rounded-full hover:text-dark-900 h-11 w-11 hover:bg-gray-100 hover:text-gray-700 dark:border-gray-800 dark:bg-gray-900 dark:text-gray-400 dark:hover:bg-gray-800 dark:hover:text-white"
        ∷ [])
      (element_of "svg"
          (class "hidden dark:block"
            ∷ attr "width" "20"
            ∷ attr "height" "20"
            ∷ attr "viewBox" "0 0 20 20"
            ∷ attr "fill" "none"
            ∷ attr "xmlns" "http://www.w3.org/2000/svg"
            ∷ [])
          (element_of "path"
              (attr "fillRule" "evenodd"
                ∷ attr "clipRule" "evenodd"
                ∷ attr "d"
                    "M9.99998 1.5415C10.4142 1.5415 10.75 1.87729 10.75 2.2915V3.5415C10.75 3.95572 10.4142 4.2915 9.99998 4.2915C9.58577 4.2915 9.24998 3.95572 9.24998 3.5415V2.2915C9.24998 1.87729 9.58577 1.5415 9.99998 1.5415ZM10.0009 6.79327C8.22978 6.79327 6.79402 8.22904 6.79402 10.0001C6.79402 11.7712 8.22978 13.207 10.0009 13.207C11.772 13.207 13.2078 11.7712 13.2078 10.0001C13.2078 8.22904 11.772 6.79327 10.0009 6.79327ZM5.29402 10.0001C5.29402 7.40061 7.40135 5.29327 10.0009 5.29327C12.6004 5.29327 14.7078 7.40061 14.7078 10.0001C14.7078 12.5997 12.6004 14.707 10.0009 14.707C7.40135 14.707 5.29402 12.5997 5.29402 10.0001ZM15.9813 5.08035C16.2742 4.78746 16.2742 4.31258 15.9813 4.01969C15.6884 3.7268 15.2135 3.7268 14.9207 4.01969L14.0368 4.90357C13.7439 5.19647 13.7439 5.67134 14.0368 5.96423C14.3297 6.25713 14.8045 6.25713 15.0974 5.96423L15.9813 5.08035ZM18.4577 10.0001C18.4577 10.4143 18.1219 10.7501 17.7077 10.7501H16.4577C16.0435 10.7501 15.7077 10.4143 15.7077 10.0001C15.7077 9.58592 16.0435 9.25013 16.4577 9.25013H17.7077C18.1219 9.25013 18.4577 9.58592 18.4577 10.0001ZM14.9207 15.9806C15.2135 16.2735 15.6884 16.2735 15.9813 15.9806C16.2742 15.6877 16.2742 15.2128 15.9813 14.9199L15.0974 14.036C14.8045 13.7431 14.3297 13.7431 14.0368 14.036C13.7439 14.3289 13.7439 14.8038 14.0368 15.0967L14.9207 15.9806ZM9.99998 15.7088C10.4142 15.7088 10.75 16.0445 10.75 16.4588V17.7088C10.75 18.123 10.4142 18.4588 9.99998 18.4588C9.58577 18.4588 9.24998 18.123 9.24998 17.7088V16.4588C9.24998 16.0445 9.58577 15.7088 9.99998 15.7088ZM5.96356 15.0972C6.25646 14.8043 6.25646 14.3295 5.96356 14.0366C5.67067 13.7437 5.1958 13.7437 4.9029 14.0366L4.01902 14.9204C3.72613 15.2133 3.72613 15.6882 4.01902 15.9811C4.31191 16.274 4.78679 16.274 5.07968 15.9811L5.96356 15.0972ZM4.29224 10.0001C4.29224 10.4143 3.95645 10.7501 3.54224 10.7501H2.29224C1.87802 10.7501 1.54224 10.4143 1.54224 10.0001C1.54224 9.58592 1.87802 9.25013 2.29224 9.25013H3.54224C3.95645 9.25013 4.29224 9.58592 4.29224 10.0001ZM4.9029 5.9637C5.1958 6.25659 5.67067 6.25659 5.96356 5.9637C6.25646 5.6708 6.25646 5.19593 5.96356 4.90303L5.07968 4.01915C4.78679 3.72626 4.31191 3.72626 4.01902 4.01915C3.72613 4.31204 3.72613 4.78692 4.01902 5.07981L4.9029 5.9637Z"
                ∷ attr "fill" "currentColor"
                ∷ [])
              []
            ∷ [])
        ∷ element_of "svg"
            (class "dark:hidden"
              ∷ attr "width" "20"
              ∷ attr "height" "20"
              ∷ attr "viewBox" "0 0 20 20"
              ∷ attr "fill" "none"
              ∷ attr "xmlns" "http://www.w3.org/2000/svg"
              ∷ [])
            (element_of "path"
                (attr "d"
                    "M17.4547 11.97L18.1799 12.1611C18.265 11.8383 18.1265 11.4982 17.8401 11.3266C17.5538 11.1551 17.1885 11.1934 16.944 11.4207L17.4547 11.97ZM8.0306 2.5459L8.57989 3.05657C8.80718 2.81209 8.84554 2.44682 8.67398 2.16046C8.50243 1.8741 8.16227 1.73559 7.83948 1.82066L8.0306 2.5459ZM12.9154 13.0035C9.64678 13.0035 6.99707 10.3538 6.99707 7.08524H5.49707C5.49707 11.1823 8.81835 14.5035 12.9154 14.5035V13.0035ZM16.944 11.4207C15.8869 12.4035 14.4721 13.0035 12.9154 13.0035V14.5035C14.8657 14.5035 16.6418 13.7499 17.9654 12.5193L16.944 11.4207ZM16.7295 11.7789C15.9437 14.7607 13.2277 16.9586 10.0003 16.9586V18.4586C13.9257 18.4586 17.2249 15.7853 18.1799 12.1611L16.7295 11.7789ZM10.0003 16.9586C6.15734 16.9586 3.04199 13.8433 3.04199 10.0003H1.54199C1.54199 14.6717 5.32892 18.4586 10.0003 18.4586V16.9586ZM3.04199 10.0003C3.04199 6.77289 5.23988 4.05695 8.22173 3.27114L7.83948 1.82066C4.21532 2.77574 1.54199 6.07486 1.54199 10.0003H3.04199ZM6.99707 7.08524C6.99707 5.52854 7.5971 4.11366 8.57989 3.05657L7.48132 2.03522C6.25073 3.35885 5.49707 5.13487 5.49707 7.08524H6.99707Z"
                  ∷ attr "fill" "currentColor"
                  ∷ [])
                []
              ∷ [])
        ∷ [])

unfoldable pub app_header : Guardian → Node
app_header g =
    element_of "header"
      (class
          "sticky top-0 flex w-full bg-white border-gray-200 z-99999 dark:border-gray-800 dark:bg-gray-900 lg:border-b"
        ∷ [])
      (element_of "div"
          (class "flex flex-col items-center justify-between grow lg:flex-row lg:px-6" ∷ [])
          (element_of "div"
              (class
                  "flex items-center justify-between w-full gap-2 px-3 py-3 border-b border-gray-200 dark:border-gray-800 sm:gap-4 lg:justify-normal lg:border-b-0 lg:px-0 lg:py-4"
                ∷ [])
              (element_of "button"
                  (class
                      "items-center justify-center w-10 h-10 text-gray-500 border-gray-200 rounded-lg z-99999 dark:border-gray-800 lg:flex dark:text-gray-400 lg:h-11 lg:w-11 lg:border"
                    ∷ on "onClick" press_sidebar_toggle
                    ∷ attr "aria-label" "Toggle Sidebar"
                    ∷ [])
                  (element_of "svg"
                      (attr "width" "16"
                        ∷ attr "height" "12"
                        ∷ attr "viewBox" "0 0 16 12"
                        ∷ attr "fill" "none"
                        ∷ attr "xmlns" "http://www.w3.org/2000/svg"
                        ∷ [])
                      (element_of "path"
                          (attr "fillRule" "evenodd"
                            ∷ attr "clipRule" "evenodd"
                            ∷ attr "d"
                                "M0.583252 1C0.583252 0.585788 0.919038 0.25 1.33325 0.25H14.6666C15.0808 0.25 15.4166 0.585786 15.4166 1C15.4166 1.41421 15.0808 1.75 14.6666 1.75L1.33325 1.75C0.919038 1.75 0.583252 1.41422 0.583252 1ZM0.583252 11C0.583252 10.5858 0.919038 10.25 1.33325 10.25L14.6666 10.25C15.0808 10.25 15.4166 10.5858 15.4166 11C15.4166 11.4142 15.0808 11.75 14.6666 11.75L1.33325 11.75C0.919038 11.75 0.583252 11.4142 0.583252 11ZM1.33325 5.25C0.919038 5.25 0.583252 5.58579 0.583252 6C0.583252 6.41421 0.919038 6.75 1.33325 6.75L7.99992 6.75C8.41413 6.75 8.74992 6.41421 8.74992 6C8.74992 5.58579 8.41413 5.25 7.99992 5.25L1.33325 5.25Z"
                            ∷ attr "fill" "currentColor"
                            ∷ [])
                          []
                        ∷ [])
                    ∷ [])
                ∷ element_of "Link" (attr "to" "/" ∷ class "lg:hidden" ∷ []) (brand false ∷ [])
                ∷ element_of "div" (class "hidden items-center gap-2 lg:flex" ∷ []) (
                    element_of "span"
                      (class
                          "flex items-center gap-1.5 text-xs font-medium text-gray-500 dark:text-gray-400"
                        ∷ [])
                      (element_of "span"
                          (class (
                              "size-1.5 rounded-full "
                              ^^ (if g.connected then "bg-success-500" else "bg-warning-500"))
                            ∷ [])
                          []
                        ∷ text (if g.connected then "live" else "reconnecting")
                        ∷ [])
                    ∷ element_of "span" (class "h-4 w-px bg-gray-200 dark:bg-gray-800" ∷ []) []
                    ∷ element_of "span" (class "text-xs text-gray-500 dark:text-gray-400" ∷ []) (
                        text (
                          option_or g.health
                            (λ h. (spelled h.events_in_window) ^^ " events in window")
                            "connecting to engine…")
                        ∷ [])
                    ∷ [])
                ∷ [])
            ∷ element_of "div"
                (class
                    "hidden items-center justify-between w-full gap-4 px-5 py-4 lg:flex shadow-theme-md lg:justify-end lg:px-0 lg:shadow-none"
                  ∷ [])
                (tone_badge ((threat_level g.threats (learning_of g.health)).tone)
                    "px-3 py-1 text-xs"
                    (text ((threat_level g.threats (learning_of g.health)).label) ∷ [])
                  ∷ theme_toggle_button
                  ∷ element_of "Link"
                      (attr "to" "/settings"
                        ∷ class
                            "flex h-9 items-center rounded-lg border border-gray-200 px-3 text-xs font-medium text-gray-600 transition-colors hover:bg-gray-50 dark:border-gray-800 dark:text-gray-300 dark:hover:bg-gray-800"
                        ∷ [])
                      (text "Settings" ∷ [])
                  ∷ [])
            ∷ [])
        ∷ [])

-- `handleToggle` of AppHeader, at `window.innerWidth`.
unfoldable pub handle_toggle : ℕ → Sidebar → Sidebar
unfolding toggle_sidebar toggle_mobile_sidebar
handle_toggle width s = if leb 1024 width then toggle_sidebar s else toggle_mobile_sidebar s
