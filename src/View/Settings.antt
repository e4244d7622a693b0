-- ===== src/View/Settings.antt =====
-- frontend/src/pages/Settings.tsx, with the state of its form, and NotFound.tsx.
pub mod Token
pub mod Offers
use guardian_os_ai.Base.{String, [], ◌∷◌, none, some, if◌then◌else◌, trim}
use guardian_os_ai.Platform.{Platform, Storage}
use guardian_os_ai.Context.Guardian.{Guardian}
use guardian_os_ai.Api.Client.{get_token, set_token}
use guardian_os_ai.View.Dom.{
  Node, text, attr, on, on_change, class, element_of, fragment, option_or, type_token, save_token,
  clear_token,
}
use guardian_os_ai.View.Ui.{panel, page_header, page_meta}

-- `useState(getToken() ?? "")`, and what the effect on mounting sets again.
unfoldable pub initial_token : Storage → String
initial_token store = option_or (get_token store) (λ t. t) ""

-- `saveToken`: the store after it; `refresh` follows after 100 ms.
unfoldable pub token_saved : String → Storage → Storage
token_saved token store = set_token (trim token) store

-- `clearToken`: the field and the store.
unfoldable pub token_cleared : Storage → String × Storage
token_cleared store = ("", set_token "" store)

unfoldable pub settings_page : Platform → Guardian → String → Node
settings_page P g token = fragment (
    page_meta "Settings" "Connection and authentication settings."
    ∷ page_header "Settings" (some "Client connection settings for the GuardianOS-AI engine.") none
    ∷ element_of "div" (class "grid gap-4 lg:grid-cols-2" ∷ []) (
        panel P (some (text "Engine connection")) (some (text "Live status")) none "" (
          element_of "div" (class "space-y-3 text-sm" ∷ []) (
            element_of "div" (class "flex items-center justify-between" ∷ []) (
              element_of "span" (class "text-gray-600 dark:text-gray-300" ∷ [])
                (text "WebSocket" ∷ [])
              ∷ element_of "span"
                  (class (if g.connected then "text-success-600" else "text-warning-600") ∷ [])
                  (text (if g.connected then "connected" else "disconnected (polling)") ∷ [])
              ∷ [])
            ∷ element_of "div" (class "flex items-center justify-between" ∷ []) (
                element_of "span" (class "text-gray-600 dark:text-gray-300" ∷ [])
                  (text "API base" ∷ [])
                ∷ element_of "span" (class "font-mono text-xs text-gray-400" ∷ [])
                    (text P.origin ∷ [])
                ∷ [])
            ∷ [])
          ∷ [])
        ∷ panel P (some (text "API token"))
            (some (text "Optional X-GUARDIAN-TOKEN sent with REST calls and /api/ws")) none ""
            (element_of "div" (class "space-y-3" ∷ []) (
                element_of "input"
                  (attr "type" "password"
                    ∷ attr "value" token
                    ∷ on_change type_token
                    ∷ attr "placeholder" "Guardian API token"
                    ∷ class
                        "w-full rounded-lg border border-gray-200 bg-white px-3 py-2 font-mono text-sm text-gray-700 placeholder:text-gray-400 focus:border-brand-300 focus:outline-none dark:border-gray-800 dark:bg-gray-900 dark:text-gray-200"
                    ∷ [])
                  []
                ∷ element_of "div" (class "flex gap-2" ∷ []) (
                    element_of "button"
                      (on "onClick" save_token
                        ∷ class
                            "rounded-md bg-brand-600 px-3 py-1.5 text-xs font-medium text-white transition-colors hover:bg-brand-700"
                        ∷ [])
                      (text "Save & reconnect" ∷ [])
                    ∷ element_of "button"
                        (on "onClick" clear_token
                          ∷ class
                              "rounded-md border border-gray-300 px-3 py-1.5 text-xs font-medium text-gray-600 transition-colors hover:bg-gray-100 dark:border-gray-700 dark:text-gray-300 dark:hover:bg-gray-800"
                          ∷ [])
                        (text "Clear" ∷ [])
                    ∷ [])
                ∷ element_of "p" (class "text-[11px] text-gray-400" ∷ []) (
                    text
                      "The token is stored in localStorage on this browser only. When the engine runs without auth (`auth.enabled: false`) no token is required."
                    ∷ [])
                ∷ [])
              ∷ [])
        ∷ [])
    ∷ [])

unfoldable pub not_found : Node
not_found =
    element_of "div"
      (class "flex min-h-screen flex-col items-center justify-center bg-white px-4 dark:bg-gray-950"
        ∷ [])
      (page_meta "Not found" "Page not found."
        ∷ element_of "p" (class "font-mono text-6xl font-bold text-brand-500" ∷ [])
            (text "404" ∷ [])
        ∷ element_of "h1" (class "mt-3 text-lg font-semibold text-gray-900 dark:text-white" ∷ [])
            (text "Page not found" ∷ [])
        ∷ element_of "p" (class "mt-1 text-sm text-gray-500 dark:text-gray-400" ∷ [])
            (text "The route you requested does not exist in GuardianOS-AI." ∷ [])
        ∷ element_of "Link"
            (attr "to" "/"
              ∷ class
                  "mt-5 rounded-md bg-brand-600 px-4 py-2 text-sm font-medium text-white transition-colors hover:bg-brand-700"
              ∷ [])
            (text "Back to overview" ∷ [])
        ∷ [])
