-- ===== src/Api/Socket/Relation.antt =====
-- The subscription of ws.ts among the sockets and timers that it has made: which events the browser
-- can deliver to it, in any order, and what each leads to. A socket is live until its close event,
-- which the browser delivers once; a timer is pending until it fires or is cleared.
use guardian_os_ai.Base.{ℕ, ◌≡◌, Bool, false, List, [], ◌∷◌, Option, ◌==◌, not, filter, Any}
use guardian_os_ai.Platform.{Platform, Storage}
use guardian_os_ai.Api.Types.{WsFrame}
use guardian_os_ai.Api.Socket.{
  SocketState, Effect, opens, closes, arms, clears, reports_status, delivers, Result, initial,
  connect, on_open, on_message, on_close, on_error, cleanup,
}

pub record World : Type 0 where
  pub state : SocketState
  pub live : List ℕ
  -- a timer and its delay in milliseconds
  pub pending : List (ℕ × ℕ)
  -- what `onStatus` was last told
  pub connected : Bool

pub data Event : Type 0 where
  fired : ℕ → Storage → Bool → Event
  opened : ℕ → Event
  received : ℕ → Option WsFrame → Event
  errored : ℕ → Event
  shut : ℕ → Event
  unmounted : Event

abbrev pub without : ℕ → List ℕ → List ℕ
without id = filter (λ x. not (x == id))

abbrev pub without_timer : ℕ → List (ℕ × ℕ) → List (ℕ × ℕ)
without_timer id = filter (λ t. not (t.0 == id))

abbrev pub run_effect : Effect → World → World
run_effect (opens id url) w = record w { live = id ∷ w.live }
run_effect (closes id) w = w
run_effect (arms id delay) w = record w { pending = (id, delay) ∷ w.pending }
run_effect (clears id) w = record w { pending = without_timer id w.pending }
run_effect (reports_status b) w = record w { connected = b }
run_effect (delivers frame) w = w

abbrev pub run_effects : List Effect → World → World
run_effects [] w = w
run_effects (e ∷ es) w = run_effects es (run_effect e w)

abbrev pub commit : Result → World → World
commit (s, es) w = run_effects es (record w { state = s })

-- The handler of each event; the event's socket or timer is used up first.
unfoldable pub next : Platform → Event → World → World
next P (fired id store constructed) w =
    commit (connect P store constructed w.state) (record w { pending = without_timer id w.pending })
next P (opened id) w = commit (on_open w.state) w
next P (received id frame) w = commit (on_message frame w.state) w
next P (errored id) w = commit (on_error w.state) w
next P (shut id) w = commit (on_close w.state) (record w { live = without id w.live })
next P unmounted w = commit (cleanup w.state) w

-- What the browser and React can deliver in a state: React runs the cleanup once.
abbrev pub CanHappen : Event → World → Type 0
CanHappen (fired id store constructed) w = Any (λ t. t.0 ≡ id) w.pending
CanHappen (opened id) w = Any (λ x. x ≡ id) w.live
CanHappen (received id frame) w = Any (λ x. x ≡ id) w.live
CanHappen (errored id) w = Any (λ x. x ≡ id) w.live
CanHappen (shut id) w = Any (λ x. x ≡ id) w.live
CanHappen unmounted w = w.state.closed ≡ false

-- The world after the first `connect()`.
unfoldable pub start : Platform → Storage → Bool → World
start P store constructed =
    commit (connect P store constructed initial)
      (record { state = initial; live = []; pending = []; connected = false })

pub data Reach (P : Platform) : World → Type 0 where
  started : (store : Storage) (constructed : Bool) → Reach P (start P store constructed)
  then_next : {w : World} (e : Event) → Reach P w → CanHappen e w → Reach P (next P e w)
