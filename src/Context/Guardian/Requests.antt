-- ===== src/Context/Guardian/Requests.antt =====
-- The provider among its requests: calls are in flight, and the server's answers come in any order.
use guardian_os_ai.Base.{ℕ, ◌≡◌, refl, Bool, true, String, List, [], ◌∷◌, ◌++◌, arith}
use guardian_os_ai.Api.Types.{FrameItem, ThreatReport, KernelEvent, Health, WsFrame}
use guardian_os_ai.Api.Endpoints.{
  Call, fetch_health, fetch_threats, fetch_events, label_threat, approve_action, reject_action,
  rollback_report, is_mutation,
}
use guardian_os_ai.Context.Guardian.{
  Guardian, initial, Settled, resolved, health_settled, threats_settled, events_settled,
  label_settled, approve_settled, reject_settled, report_settled, rollback_settled, refresh,
  on_frame, set_connected, Timer, tick, ItemAction, shows_report, patches_health, ignored,
  item_action, run_item, run_items,
}
use guardian_os_ai.Context.Guardian.Upsert.{IsDistinct, upsert_threat-IsDistinct}

pub data Answer : Type 0 where
  health_answer : Settled Health → Answer
  threats_answer : Settled (List ThreatReport) → Answer
  events_answer : Settled (List KernelEvent) → Answer
  report_answer : Settled ThreatReport → Answer
  count_answer : Settled ℕ → Answer

-- The callback that an answer to a call runs, and the calls that it makes; `fetchThreat` is not called by
-- the provider.
unfoldable pub settle : Call → Answer → Guardian → Guardian × List Call
settle fetch_health (health_answer a) g = (health_settled a g, [])
settle (fetch_threats n) (threats_answer a) g = (threats_settled a g, [])
settle (fetch_events n) (events_answer a) g = (events_settled a g, [])
settle (label_threat id b) (report_answer a) g = ((label_settled a g).0, [])
settle (approve_action id i) (report_answer a) g = ((approve_settled a g).0, [])
settle (reject_action id i) (report_answer a) g = ((reject_settled a g).0, [])
settle (rollback_report id) (count_answer a) g = ((rollback_settled a g).0, [])
settle _ _ g = (g, [])

-- The promise of the server: a list of reports has each id once, as its table of reports does.
abbrev pub IsHonest : Answer → Type 0
IsHonest (threats_answer (resolved list)) = IsDistinct list
IsHonest _ = Unit {0}

pub record World : Type 0 where
  pub guardian : Guardian
  pub in_flight : List Call

abbrev pub issue : Guardian × List Call → World → World
issue (g, calls) w = record { guardian = g; in_flight = w.in_flight ++ calls }

pub data Step : World → World → Type 0 where
  refreshes : (w : World) → Step w (issue (refresh w.guardian) w)
  ticks : (w : World) (t : Timer) → Step w (issue (w.guardian, tick t) w)
  frames : (w : World) (f : WsFrame) → Step w (issue (on_frame f w.guardian) w)
  reports : (w : World) (b : Bool) → Step w (issue (set_connected b w.guardian, []) w)
  asks : (w : World) (c : Call) → is_mutation c ≡ true → Step w (issue (w.guardian, c ∷ []) w)
  answers :
      (w : World) (before later : List Call) (c : Call) (a : Answer)
      → w.in_flight ≡ before ++ c ∷ later
      → IsHonest a
      → Step w (issue (settle c a w.guardian) (record w { in_flight = before ++ later }))

-- The provider mounts with one `refresh`.
abbrev pub start : World
start = issue (refresh initial) (record { guardian = initial; in_flight = [] })

pub data Reach : World → Type 0 where
  here : Reach start
  next : {w w' : World} → Reach w → Step w w' → Reach w'

run_item-IsDistinct :
    (a : ItemAction) (g : Guardian) → IsDistinct g.threats → IsDistinct (run_item a g).0.threats
unfolding run_item
run_item-IsDistinct (shows_report r) g h = upsert_threat-IsDistinct g.threats r h
run_item-IsDistinct (patches_health p) g h = h
run_item-IsDistinct ignored g h = h

run_items-IsDistinct :
    (items : List FrameItem) (g : Guardian)
    → IsDistinct g.threats
    → IsDistinct (run_items items g).0.threats
unfolding run_items
run_items-IsDistinct [] g h = h
run_items-IsDistinct (item ∷ items) g h =
    run_items-IsDistinct items _ (run_item-IsDistinct (item_action item) g h)

health_settled-threats :
    (a : Settled Health) (g : Guardian) → (health_settled a g).threats ≡ g.threats
unfolding health_settled
health_settled-threats a g = ground arith

events_settled-threats :
    (a : Settled (List KernelEvent)) (g : Guardian) → (events_settled a g).threats ≡ g.threats
unfolding events_settled
events_settled-threats a g = ground arith

rollback_settled-threats :
    (a : Settled ℕ) (g : Guardian) → (rollback_settled a g).0.threats ≡ g.threats
unfolding rollback_settled
rollback_settled-threats a g = ground arith

threats_settled-IsDistinct :
    (a : Settled (List ThreatReport)) (g : Guardian)
    → IsHonest (threats_answer a)
    → IsDistinct g.threats
    → IsDistinct (threats_settled a g).threats
unfolding threats_settled
threats_settled-IsDistinct (resolved list) g honest h = honest
threats_settled-IsDistinct _ g honest h = h

report_settled-IsDistinct :
    (fallback : String) (a : Settled ThreatReport) (g : Guardian)
    → IsDistinct g.threats
    → IsDistinct (report_settled fallback a g).0.threats
report_settled-IsDistinct fallback (resolved r) g h = upsert_threat-IsDistinct g.threats r h
report_settled-IsDistinct fallback _ g h = h

settle-IsDistinct :
    (c : Call) (a : Answer) (g : Guardian)
    → IsHonest a
    → IsDistinct g.threats
    → IsDistinct (settle c a g).0.threats
unfolding settle label_settled approve_settled reject_settled
settle-IsDistinct fetch_health (health_answer a) g honest h = rw (health_settled-threats a g) h
settle-IsDistinct (fetch_threats n) (threats_answer a) g honest h =
    threats_settled-IsDistinct a g honest h
settle-IsDistinct (fetch_events n) (events_answer a) g honest h = rw (events_settled-threats a g) h
settle-IsDistinct (label_threat id b) (report_answer a) g honest h =
    report_settled-IsDistinct _ a g h
settle-IsDistinct (approve_action id i) (report_answer a) g honest h =
    report_settled-IsDistinct _ a g h
settle-IsDistinct (reject_action id i) (report_answer a) g honest h =
    report_settled-IsDistinct _ a g h
settle-IsDistinct (rollback_report id) (count_answer a) g honest h =
    rw (rollback_settled-threats a g) h
settle-IsDistinct _ _ g honest h = h

-- No callback of an answer makes a call.
pub settle-issues : (c : Call) (a : Answer) (g : Guardian) → (settle c a g).1 ≡ []
unfolding settle
settle-issues fetch_health (health_answer a) g = refl
settle-issues (fetch_threats n) (threats_answer a) g = refl
settle-issues (fetch_events n) (events_answer a) g = refl
settle-issues (label_threat id b) (report_answer a) g = refl
settle-issues (approve_action id i) (report_answer a) g = refl
settle-issues (reject_action id i) (report_answer a) g = refl
settle-issues (rollback_report id) (count_answer a) g = refl
settle-issues _ _ g = refl

Step-IsDistinct :
    {w w' : World} → Step w w' → IsDistinct w.guardian.threats → IsDistinct w'.guardian.threats
unfolding refresh on_frame set_connected
Step-IsDistinct (refreshes w) h = h
Step-IsDistinct (ticks w t) h = h
Step-IsDistinct (frames w f) h = run_items-IsDistinct f.items w.guardian h
Step-IsDistinct (reports w b) h = h
Step-IsDistinct (asks w c m) h = h
Step-IsDistinct (answers w before later c a e honest) h = settle-IsDistinct c a w.guardian honest h

-- Whatever is refreshed, pushed, polled, asked for and answered, in any order: no two reports of the
-- list have one id, if each list that the server answers with has that property.
pub Reach-IsDistinct : {w : World} → Reach w → IsDistinct w.guardian.threats
unfolding refresh
Reach-IsDistinct here = tt
Reach-IsDistinct (next r st) = Step-IsDistinct st (Reach-IsDistinct r)
