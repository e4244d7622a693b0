-- ===== src/Api/Client.antt =====
-- frontend/src/api/client.ts: the token in `localStorage` and the one function that calls `fetch`.
-- `fetch` is an argument: the answer that the browser gives for what is sent. A rejected promise is a
-- `Failure`.
pub mod Laws
pub mod Answers
use guardian_os_ai.Base.{
  ℕ, Bool, true, false, String, List, [], ◌∷◌, Option, none, some, str_eq, if◌then◌else◌, leb, ◌&&◌,
  ◌^^◌, truthy, decimal, or_else,
}
use guardian_os_ai.Platform.{Platform, Storage, get_item, set_item, remove_item}
use guardian_os_ai.Api.Types.{Json, null, bool, num, str, arr, obj, Items, Fields, end, field}

abbrev pub token_key : String
token_key = "guardian_token"

unfoldable pub get_token : Storage → Option String
get_token store = get_item token_key store

unfoldable pub set_token : String → Storage → Storage
set_token token store =
    if truthy token then set_item token_key token store else remove_item token_key store

-- `ApiError`, the `SyntaxError` of a body that is no JSON, and what the reading of a body rejects with that
-- breaks off.
pub data Failure : Type 0 where
  api_error : ℕ → String → Failure
  syntax_error : Failure
  broken_body : Failure

pub data Outcome {ℓ} (A : Type ℓ) : Type ℓ where
  ok : A → Outcome A
  err : Failure → Outcome A

-- `RequestInit`, as far as the source fills it in.
pub record Init : Type 0 where
  pub method : Option String
  pub body : Option String
  pub headers : List (String × String)

pub record Sent : Type 0 where
  pub path : String
  pub method : Option String
  pub body : Option String
  pub headers : List (String × String)

-- What `response.json()` comes to: a value, or one of its two rejections.
pub data Body : Type 0 where
  parsed : Json → Body
  unparsed : Body
  broken_off : Body

pub record Response : Type 0 where
  pub status : ℕ
  pub body : Body

pub data Reply : Type 0 where
  unreachable : Reply
  replied : Response → Reply

-- `response.ok`
unfoldable pub is_ok : Response → Bool
is_ok r = leb 200 r.status && leb r.status 299

-- The object spread `{ ...headers, ...more }`: a later value takes the place of an earlier one.
unfoldable pub spread : List (String × String) → List (String × String) → List (String × String)
spread headers [] = headers
spread headers ((k, v) ∷ more) = spread (set_item k v headers) more

-- `token` is falsy when it is missing or empty.
unfoldable pub token_headers : Option String → List (String × String) → List (String × String)
token_headers none headers = headers
token_headers (some token) headers =
    if truthy token then set_item "X-GUARDIAN-TOKEN" token headers else headers

unfoldable pub body_headers : Option String → List (String × String) → List (String × String)
body_headers none headers = headers
body_headers (some body) headers = set_item "Content-Type" "application/json" headers

unfoldable pub build_request : Storage → String → Init → Sent
unfolding token_headers body_headers spread
build_request store path init = record {
  path = path;
  method = init.method;
  body = init.body;
  headers = spread (body_headers init.body (token_headers (get_token store) [])) init.headers;
}

-- The last value of a key, as `JSON.parse` keeps it.
unfoldable pub member : String → Fields → Option Json
member k end = none
member k (field j v fs) = elim (member k fs) [
  | some w ↦ some w
  | none ↦ if str_eq j k then some v else none
]

abbrev pub string_or : String → Option Json → String
string_or detail (some (str s)) = s
string_or detail _ = detail

-- The `try` block that reads `body.detail`: a rejection, `null` (where the access throws), a value
-- without the member and a member that is no string all leave the text as it was.
unfoldable pub error_detail : String → Body → String
unfolding member
error_detail detail (parsed (obj fs)) = string_or detail (member "detail" fs)
error_detail detail _ = detail

abbrev pub read_body : Body → Outcome Json
read_body unparsed = err syntax_error
read_body broken_off = err broken_body
read_body (parsed v) = ok v

abbrev pub read_reply : Platform → Reply → Outcome Json
read_reply P unreachable =
    err (api_error 0 ("Cannot reach the GuardianOS-AI server at " ^^ P.origin))
read_reply P (replied r) =
    if is_ok r
    then read_body r.body
    else err (api_error r.status (error_detail ("HTTP " ^^ decimal r.status) r.body))

unfoldable pub request : Platform → Storage → (Sent → Reply) → String → Init → Outcome Json
unfolding is_ok error_detail
request P store fetch path init = read_reply P (fetch (build_request store path init))

-- `api.get`, and `json("POST")`: an `undefined` body stays undefined, any other is stringified.
unfoldable pub get_init : Init
get_init = record { method = none; body = none; headers = [] }

unfoldable pub json_init : Platform → String → Option Json → Init
json_init P method none = record { method = some method; body = none; headers = [] }
json_init P method (some v) = record {
  method = some method;
  body = some (P.stringify v);
  headers = [];
}

pub api_get : Platform → Storage → (Sent → Reply) → String → Outcome Json
api_get P store fetch path = request P store fetch path get_init

pub api_post : Platform → Storage → (Sent → Reply) → String → Option Json → Outcome Json
api_post P store fetch path body = request P store fetch path (json_init P "POST" body)
