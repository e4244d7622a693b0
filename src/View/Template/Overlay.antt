-- ===== src/View/Template/Overlay.antt =====
-- What frontend/src/components/ui/modal/index.tsx and dropdown/Dropdown.tsx render.
use guardian_os_ai.Base.{Bool, String, List, [], ◌∷◌, Option, not, if◌then◌else◌, ◌^^◌}
use guardian_os_ai.View.Dom.{
  Node, Intent, attr, on, on_nothing, class, element_of, fragment, when, option_or,
}

unfoldable pub content_class : Bool → String
content_class is_fullscreen =
    if is_fullscreen
    then "w-full h-full"
    else "relative w-full rounded-3xl bg-white  dark:bg-gray-900"

unfoldable pub modal_content : Intent → Bool → Bool → Option String → List Node → Node
modal_content on_close show_close_button is_fullscreen names children =
    element_of "div"
      (class "fixed inset-0 flex items-center justify-center overflow-y-auto modal z-99999" ∷ [])
      (when (not is_fullscreen) (
          element_of "div"
            (class "fixed inset-0 h-full w-full bg-gray-400/50 backdrop-blur-[32px]"
              ∷ on "onClick" on_close
              ∷ [])
            [])
        ∷ element_of "div"
            (class ((content_class is_fullscreen) ^^ "  " ^^ (option_or names (λ n. n) "undefined"))
              ∷ on_nothing "onClick"
              ∷ [])
            (when show_close_button (
                element_of "button"
                  (on "onClick" on_close
                    ∷ class
                        "absolute right-3 top-3 z-999 flex h-9.5 w-9.5 items-center justify-center rounded-full bg-gray-100 text-gray-400 transition-colors hover:bg-gray-200 hover:text-gray-700 dark:bg-gray-800 dark:text-gray-400 dark:hover:bg-gray-700 dark:hover:text-white sm:right-6 sm:top-6 sm:h-11 sm:w-11"
                    ∷ [])
                  (element_of "svg"
                      (attr "width" "24"
                        ∷ attr "height" "24"
                        ∷ attr "viewBox" "0 0 24 24"
                        ∷ attr "fill" "none"
                        ∷ attr "xmlns" "http://www.w3.org/2000/svg"
                        ∷ [])
                      (element_of "path"
                          (attr "fillRule" "evenodd"
                            ∷ attr "clipRule" "evenodd"
                            ∷ attr "d"
                                "M6.04289 16.5413C5.65237 16.9318 5.65237 17.565 6.04289 17.9555C6.43342 18.346 7.06658 18.346 7.45711 17.9555L11.9987 13.4139L16.5408 17.956C16.9313 18.3466 17.5645 18.3466 17.955 17.956C18.3455 17.5655 18.3455 16.9323 17.955 16.5418L13.4129 11.9997L17.955 7.4576C18.3455 7.06707 18.3455 6.43391 17.955 6.04338C17.5645 5.65286 16.9313 5.65286 16.5408 6.04338L11.9987 10.5855L7.45711 6.0439C7.06658 5.65338 6.43342 5.65338 6.04289 6.0439C5.65237 6.43442 5.65237 7.06759 6.04289 7.45811L10.5845 11.9997L6.04289 16.5413Z"
                            ∷ attr "fill" "currentColor"
                            ∷ [])
                          []
                        ∷ [])
                    ∷ []))
              ∷ element_of "div" [] (fragment children ∷ [])
              ∷ [])
        ∷ [])

-- `Modal`, which shows nothing while it is closed. The default of `showCloseButton` is true and that of
-- `isFullscreen` false; an absent class name is spelled out.
unfoldable pub modal : Bool → Intent → Bool → Bool → Option String → List Node → Node
modal is_open on_close show_close_button is_fullscreen names children =
    when is_open (modal_content on_close show_close_button is_fullscreen names children)

unfoldable pub dropdown_content : String → List Node → Node
dropdown_content names children =
    element_of "div"
      (class (
          "absolute z-40  right-0 mt-2  rounded-xl border border-gray-200 bg-white  shadow-theme-lg dark:border-gray-800 dark:bg-gray-dark "
          ^^ names)
        ∷ [])
      (fragment children ∷ [])

-- `Dropdown`
unfoldable pub dropdown : Bool → String → List Node → Node
dropdown is_open names children = when is_open (dropdown_content names children)
