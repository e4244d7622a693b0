-- ===== src/Api/Client/Laws.antt =====
-- frontend/src/api/client.ts: the token in the storage, and the headers that are sent.
use guardian_os_ai.Base.{
  ◌≡◌, refl, ◌≢◌, ◌↔◌, true, String, [], Option, none, some, if◌then◌else◌, truthy, str_eq, arith,
  eq_iff,
}
use guardian_os_ai.Platform.{Storage, get_item, set_item, get_item-set_item, get_item-remove_item}
use guardian_os_ai.Api.Client.{
  get_token, set_token, token_key, Init, Sent, build_request, body_headers, token_headers,
}

-- After a token is set it is what is read back, and setting the empty token removes it. No other key
-- of the storage changes.
pub get_token-set_token :
    (token key : String) (store : Storage)
    → (get_token (set_token token store) ≡ (if truthy token then some token else none))
      × (get_item key (set_token token store) ≡ (
          if str_eq token_key key
          then (if truthy token then some token else none)
          else get_item key store))
unfolding get_token set_token
get_token-set_token token key store = (
  ground (
    arith,
    get_item-set_item token_key token_key token store,
    get_item-remove_item token_key token_key store,
    eq_iff token_key token_key,
  ),
  ground (
    arith,
    get_item-set_item key token_key token store,
    get_item-remove_item key token_key store,
    eq_iff token_key key,
  ),
)

-- What a request carries: the method, path and body as given; the token's header exactly when a
-- token that is not empty is stored; and the content type exactly when there is a body.
pub record Carries (store : Storage) (path : String) (init : Init) (sent : Sent) : Type 0 where
  pub same_path : sent.path ≡ path
  pub same_method : sent.method ≡ init.method
  pub same_body : sent.body ≡ init.body
  pub token_sent :
      (token : String)
      → (get_item "X-GUARDIAN-TOKEN" sent.headers ≡ some token)
        ↔ ((get_token store ≡ some token) × (truthy token ≡ true))
  pub type_sent :
      (get_item "Content-Type" sent.headers ≡ some "application/json") ↔ (init.body ≢ none)

token_iff :
    (t b : Option String) (token : String)
    → (get_item "X-GUARDIAN-TOKEN" (body_headers b (token_headers t [])) ≡ some token)
      ↔ ((t ≡ some token) × (truthy token ≡ true))
unfolding get_item set_item body_headers token_headers
token_iff none none token = ground arith
token_iff none (some b) token = ground arith
token_iff (some t) none token = ground arith
token_iff (some t) (some b) token = ground arith

type_iff :
    (t b : Option String)
    → (get_item "Content-Type" (body_headers b (token_headers t [])) ≡ some "application/json")
      ↔ (b ≢ none)
unfolding get_item set_item body_headers token_headers
type_iff none none = ground arith
type_iff none (some b) = ground arith
type_iff (some t) none = ground arith
type_iff (some t) (some b) = ground arith

pub build_request-Carries :
    (store : Storage) (path : String) (init : Init)
    → init.headers ≡ []
    → Carries store path init (build_request store path init)
unfolding build_request
build_request-Carries store path init e = record {
  same_path = refl;
  same_method = refl;
  same_body = refl;
  token_sent = rw e (token_iff (get_token store) init.body);
  type_sent = rw e (type_iff (get_token store) init.body);
}
