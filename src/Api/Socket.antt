-- ===== src/Api/Socket.antt =====
-- frontend/src/api/ws.ts: one run of the effect of `useGuardianSocket`, from `connect()` to the
-- cleanup. The variables of its closure are the record; sockets and timers are numbered in the order
-- in which they are made. Each handler returns the new state and what it did, in order.
pub mod Relation
pub mod Liveness
use guardian_os_ai.Base.{
  ℕ, ◌+◌, ◌*◌, ◌^◌, min, Bool, true, false, String, List, [], ◌∷◌, Option, none, some, str_eq, ◌^^◌,
  if◌then◌else◌, truthy, or_else,
}
use guardian_os_ai.Platform.{Platform, Storage}
use guardian_os_ai.Api.Types.{WsFrame}
use guardian_os_ai.Api.Client.{get_token}

pub record SocketState : Type 0 where
  -- `ws`, `retries`, `closed`, `reconnectTimer`
  pub ws : Option ℕ
  pub retries : ℕ
  pub closed : Bool
  pub reconnect_timer : Option ℕ
  -- the numbers of the next socket and of the next timer
  pub next_socket : ℕ
  pub next_timer : ℕ

pub data Effect : Type 0 where
  opens : ℕ → String → Effect
  closes : ℕ → Effect
  arms : ℕ → ℕ → Effect
  clears : ℕ → Effect
  reports_status : Bool → Effect
  delivers : WsFrame → Effect

abbrev pub Result : Type 0
Result = SocketState × List Effect

abbrev pub initial : SocketState
initial = record {
  ws = none;
  retries = 0;
  closed = false;
  reconnect_timer = none;
  next_socket = 0;
  next_timer = 0;
}

-- `Math.min(1000 * 2 ** retries, 15000)`
unfoldable pub backoff : ℕ → ℕ
backoff retries = min (1000 * 2 ^ retries) 15000

abbrev token_query : Platform → Option String → String
token_query P none = ""
token_query P (some token) = if truthy token then "?token=" ^^ P.encode_uri_component token else ""

unfoldable pub socket_url : Platform → Storage → String
socket_url P store =
    (if str_eq P.protocol "https:" then "wss:" else "ws:")
    ^^ "//"
    ^^ P.host
    ^^ "/api/ws"
    ^^ token_query P (get_token store)

-- `retries += 1` and `setTimeout(connect, …)`, as in the `catch` and in `onclose`.
unfoldable pub schedule : SocketState → Result
unfolding backoff
schedule s = (
  record s {
    retries = s.retries + 1;
    reconnect_timer = some s.next_timer;
    next_timer = s.next_timer + 1;
  },
  arms s.next_timer (backoff (s.retries + 1)) ∷ [],
)

abbrev after : Effect → Result → Result
after e (s, es) = (s, e ∷ es)

-- `constructed` says whether `new WebSocket(url)` returned; it throws otherwise.
unfoldable pub connect : Platform → Storage → Bool → SocketState → Result
unfolding schedule
connect P store constructed s =
    if s.closed
    then (s, [])
    else if constructed
    then (
      record s { ws = some s.next_socket; next_socket = s.next_socket + 1 },
      opens s.next_socket (socket_url P store) ∷ [],
    )
    else after (reports_status false) (schedule s)

unfoldable pub on_open : SocketState → Result
on_open s = (record s { retries = 0 }, reports_status true ∷ [])

-- `frame` is `none` where `JSON.parse` throws.
unfoldable pub on_message : Option WsFrame → SocketState → Result
on_message none s = (s, [])
on_message (some frame) s = (s, delivers frame ∷ [])

unfoldable pub on_close : SocketState → Result
unfolding schedule
on_close s =
    if s.closed then (s, reports_status false ∷ []) else after (reports_status false) (schedule s)

abbrev close_current : Option ℕ → List Effect
close_current none = []
close_current (some id) = closes id ∷ []

abbrev clear_current : Option ℕ → List Effect → List Effect
clear_current none es = es
clear_current (some id) es = clears id ∷ es

-- `ws?.close()`
unfoldable pub on_error : SocketState → Result
on_error s = (s, close_current s.ws)

unfoldable pub cleanup : SocketState → Result
cleanup s = (record s { closed = true }, clear_current s.reconnect_timer (close_current s.ws))
