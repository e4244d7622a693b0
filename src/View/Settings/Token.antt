-- ===== src/View/Settings/Token.antt =====
-- The token that the Settings page saves and clears.
use guardian_os_ai.Base.{
  ◌≡◌, refl, false, String, none, some, truthy, trim, if◌then◌else◌, Bool-cases, inl, inr,
}
use guardian_os_ai.Platform.{Storage}
use guardian_os_ai.Api.Client.{get_token, token_key}
use guardian_os_ai.Api.Client.Laws.{get_token-set_token}
use guardian_os_ai.View.Dom.{option_or}
use guardian_os_ai.View.Settings.{initial_token, token_saved, token_cleared}

truthy-empty : (s : String) → truthy s ≡ false → "" ≡ s
truthy-empty String.[] e = refl
truthy-empty (String.◌∷◌ c s) e = cc

-- A page that is opened after a token was saved shows that token without the white space around it, and
-- it is what the requests send, if it is not empty; after the token was cleared the page shows none and
-- none is sent.
pub settings_token :
    (token : String) (store : Storage)
    → (initial_token (token_saved token store) ≡ trim token)
      × (get_token (token_saved token store)
          ≡ (if truthy (trim token) then some (trim token) else none))
      × ((token_cleared store).0 ≡ "")
      × (initial_token (token_cleared store).1 ≡ "")
      × (get_token (token_cleared store).1 ≡ none)
unfolding initial_token token_saved token_cleared option_or
settings_token token store =
    let saved = (get_token-set_token (trim token) token_key store).0 in
    let cleared = (get_token-set_token "" token_key store).0 in
    (
      elim (Bool-cases (truthy (trim token))) [
        | inl e ↦ rw (saved, e) refl
        | inr e ↦ rw (saved, e) (truthy-empty (trim token) e)
      ],
      saved,
      refl,
      rw cleared refl,
      cleared,
    )
