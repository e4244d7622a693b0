-- ===== src/View/Template/Chrome.antt =====
-- frontend/src/components/common: ThemeTogglerTwo.tsx, PageBreadCrumb.tsx, ComponentCard.tsx and
-- GridShape.tsx.
use guardian_os_ai.Base.{String, List, [], ◌∷◌, truthy, ◌^^◌}
use guardian_os_ai.View.Dom.{
  Node, text, attr, on, class, element_of, fragment, when, press_theme_toggle,
}

unfoldable pub theme_toggler_two : Node
theme_toggler_two =
    element_of "button"
      (on "onClick" press_theme_toggle
        ∷ class
            "inline-flex items-center justify-center text-white transition-colors rounded-full size-14 bg-brand-500 hover:bg-brand-600"
        ∷ [])
      (element_of "svg"
          (class "hidden dark:block"
            ∷ attr "width" "20"
            ∷ attr "height" "20"
            ∷ attr "viewBox" "0 0 20 20"
            ∷ attr "fill" "none"
            ∷ attr "xmlns" "http://www.w3.org/2000/svg"
            ∷ [])
          (element_of "path"
              (attr "fillRule" "evenodd"
                ∷ attr "clipRule" "evenodd"
                ∷ attr "d"
                    "M9.99998 1.5415C10.4142 1.5415 10.75 1.87729 10.75 2.2915V3.5415C10.75 3.95572 10.4142 4.2915 9.99998 4.2915C9.58577 4.2915 9.24998 3.95572 9.24998 3.5415V2.2915C9.24998 1.87729 9.58577 1.5415 9.99998 1.5415ZM10.0009 6.79327C8.22978 6.79327 6.79402 8.22904 6.79402 10.0001C6.79402 11.7712 8.22978 13.207 10.0009 13.207C11.772 13.207 13.2078 11.7712 13.2078 10.0001C13.2078 8.22904 11.772 6.79327 10.0009 6.79327ZM5.29402 10.0001C5.29402 7.40061 7.40135 5.29327 10.0009 5.29327C12.6004 5.29327 14.7078 7.40061 14.7078 10.0001C14.7078 12.5997 12.6004 14.707 10.0009 14.707C7.40135 14.707 5.29402 12.5997 5.29402 10.0001ZM15.9813 5.08035C16.2742 4.78746 16.2742 4.31258 15.9813 4.01969C15.6884 3.7268 15.2135 3.7268 14.9207 4.01969L14.0368 4.90357C13.7439 5.19647 13.7439 5.67134 14.0368 5.96423C14.3297 6.25713 14.8045 6.25713 15.0974 5.96423L15.9813 5.08035ZM18.4577 10.0001C18.4577 10.4143 18.1219 10.7501 17.7077 10.7501H16.4577C16.0435 10.7501 15.7077 10.4143 15.7077 10.0001C15.7077 9.58592 16.0435 9.25013 16.4577 9.25013H17.7077C18.1219 9.25013 18.4577 9.58592 18.4577 10.0001ZM14.9207 15.9806C15.2135 16.2735 15.6884 16.2735 15.9813 15.9806C16.2742 15.6877 16.2742 15.2128 15.9813 14.9199L15.0974 14.036C14.8045 13.7431 14.3297 13.7431 14.0368 14.036C13.7439 14.3289 13.7439 14.8038 14.0368 15.0967L14.9207 15.9806ZM9.99998 15.7088C10.4142 15.7088 10.75 16.0445 10.75 16.4588V17.7088C10.75 18.123 10.4142 18.4588 9.99998 18.4588C9.58577 18.4588 9.24998 18.123 9.24998 17.7088V16.4588C9.24998 16.0445 9.58577 15.7088 9.99998 15.7088ZM5.96356 15.0972C6.25646 14.8043 6.25646 14.3295 5.96356 14.0366C5.67067 13.7437 5.1958 13.7437 4.9029 14.0366L4.01902 14.9204C3.72613 15.2133 3.72613 15.6882 4.01902 15.9811C4.31191 16.274 4.78679 16.274 5.07968 15.9811L5.96356 15.0972ZM4.29224 10.0001C4.29224 10.4143 3.95645 10.7501 3.54224 10.7501H2.29224C1.87802 10.7501 1.54224 10.4143 1.54224 10.0001C1.54224 9.58592 1.87802 9.25013 2.29224 9.25013H3.54224C3.95645 9.25013 4.29224 9.58592 4.29224 10.0001ZM4.9029 5.9637C5.1958 6.25659 5.67067 6.25659 5.96356 5.9637C6.25646 5.6708 6.25646 5.19593 5.96356 4.90303L5.07968 4.01915C4.78679 3.72626 4.31191 3.72626 4.01902 4.01915C3.72613 4.31204 3.72613 4.78692 4.01902 5.07981L4.9029 5.9637Z"
                ∷ attr "fill" "currentColor"
                ∷ [])
              []
            ∷ [])
        ∷ element_of "svg"
            (class "dark:hidden"
              ∷ attr "width" "20"
              ∷ attr "height" "20"
              ∷ attr "viewBox" "0 0 20 20"
              ∷ attr "fill" "none"
              ∷ attr "xmlns" "http://www.w3.org/2000/svg"
              ∷ [])
            (element_of "path"
                (attr "d"
                    "M17.4547 11.97L18.1799 12.1611C18.265 11.8383 18.1265 11.4982 17.8401 11.3266C17.5538 11.1551 17.1885 11.1934 16.944 11.4207L17.4547 11.97ZM8.0306 2.5459L8.57989 3.05657C8.80718 2.81209 8.84554 2.44682 8.67398 2.16046C8.50243 1.8741 8.16227 1.73559 7.83948 1.82066L8.0306 2.5459ZM12.9154 13.0035C9.64678 13.0035 6.99707 10.3538 6.99707 7.08524H5.49707C5.49707 11.1823 8.81835 14.5035 12.9154 14.5035V13.0035ZM16.944 11.4207C15.8869 12.4035 14.4721 13.0035 12.9154 13.0035V14.5035C14.8657 14.5035 16.6418 13.7499 17.9654 12.5193L16.944 11.4207ZM16.7295 11.7789C15.9437 14.7607 13.2277 16.9586 10.0003 16.9586V18.4586C13.9257 18.4586 17.2249 15.7853 18.1799 12.1611L16.7295 11.7789ZM10.0003 16.9586C6.15734 16.9586 3.04199 13.8433 3.04199 10.0003H1.54199C1.54199 14.6717 5.32892 18.4586 10.0003 18.4586V16.9586ZM3.04199 10.0003C3.04199 6.77289 5.23988 4.05695 8.22173 3.27114L7.83948 1.82066C4.21532 2.77574 1.54199 6.07486 1.54199 10.0003H3.04199ZM6.99707 7.08524C6.99707 5.52854 7.5971 4.11366 8.57989 3.05657L7.48132 2.03522C6.25073 3.35885 5.49707 5.13487 5.49707 7.08524H6.99707Z"
                  ∷ attr "fill" "currentColor"
                  ∷ [])
                []
              ∷ [])
        ∷ [])

unfoldable pub page_breadcrumb : String → Node
page_breadcrumb page_title =
    element_of "div" (class "flex flex-wrap items-center justify-between gap-3 mb-6" ∷ []) (
      element_of "h2"
        (class "text-xl font-semibold text-gray-800 dark:text-white/90"
          ∷ attr "x-text" "pageName"
          ∷ [])
        (text page_title ∷ [])
      ∷ element_of "nav" [] (
          element_of "ol" (class "flex items-center gap-1.5" ∷ []) (
            element_of "li" [] (
              element_of "Link"
                (class "inline-flex items-center gap-1.5 text-sm text-gray-500 dark:text-gray-400"
                  ∷ attr "to" "/"
                  ∷ [])
                (text "Home"
                  ∷ element_of "svg"
                      (class "stroke-current"
                        ∷ attr "width" "17"
                        ∷ attr "height" "16"
                        ∷ attr "viewBox" "0 0 17 16"
                        ∷ attr "fill" "none"
                        ∷ attr "xmlns" "http://www.w3.org/2000/svg"
                        ∷ [])
                      (element_of "path"
                          (attr "d" "M6.0765 12.667L10.2432 8.50033L6.0765 4.33366"
                            ∷ attr "stroke" ""
                            ∷ attr "strokeWidth" "1.2"
                            ∷ attr "strokeLinecap" "round"
                            ∷ attr "strokeLinejoin" "round"
                            ∷ [])
                          []
                        ∷ [])
                  ∷ [])
              ∷ [])
            ∷ element_of "li" (class "text-sm text-gray-800 dark:text-white/90" ∷ [])
                (text page_title ∷ [])
            ∷ [])
          ∷ [])
      ∷ [])

unfoldable pub component_card : String → String → String → List Node → Node
component_card title names desc children =
    element_of "div"
      (class (
          "rounded-2xl border border-gray-200 bg-white dark:border-gray-800 dark:bg-white/[0.03] "
          ^^ names)
        ∷ [])
      (element_of "div" (class "px-6 py-5" ∷ []) (
          element_of "h3" (class "text-base font-medium text-gray-800 dark:text-white/90" ∷ [])
            (text title ∷ [])
          ∷ when (truthy desc) (
              (element_of "p" (class "mt-1 text-sm text-gray-500 dark:text-gray-400" ∷ [])
                (text desc ∷ [])))
          ∷ [])
        ∷ element_of "div" (class "p-4 border-t border-gray-100 dark:border-gray-800 sm:p-6" ∷ [])
            (element_of "div" (class "space-y-6" ∷ []) (fragment children ∷ []) ∷ [])
        ∷ [])

unfoldable pub grid_shape : Node
grid_shape = fragment (
    element_of "div"
      (class "absolute right-0 top-0 -z-1 w-full max-w-[250px] xl:max-w-[450px]" ∷ [])
      (element_of "img" (attr "src" "/images/shape/grid-01.svg" ∷ attr "alt" "grid" ∷ []) [] ∷ [])
    ∷ element_of "div"
        (class "absolute bottom-0 left-0 -z-1 w-full max-w-[250px] rotate-180 xl:max-w-[450px]"
          ∷ [])
        (element_of "img" (attr "src" "/images/shape/grid-01.svg" ∷ attr "alt" "grid" ∷ []) [] ∷ [])
    ∷ [])
