-- ===== src/Context/Guardian.antt =====
-- frontend/src/context/GuardianContext.tsx: the state of the provider, and one function for each
-- callback and each settled promise. A function that starts requests returns the calls that it makes;
-- what they lead to is in the module Requests.
pub mod Upsert
pub mod Frames
pub mod Lookup
pub mod Requests
pub mod Errors
pub mod Quiet
use guardian_os_ai.Base.{
  ℕ, ◌+◌, Bool, true, false, String, List, [], ◌∷◌, ◌++◌, Option, none, some, str_eq, not, filter,
  if◌then◌else◌,
}
use guardian_os_ai.Api.Types.{
  ThreatReport, KernelEvent, Health, FrameData, FrameItem, WsFrame, LabelRequest,
}
use guardian_os_ai.Api.Endpoints.{
  Call, fetch_health, fetch_threats, fetch_events, label_threat, approve_action, reject_action,
  rollback_report, default_limit,
}

pub record Guardian : Type 0 where
  pub connected : Bool
  pub health : Option Health
  pub health_error : Option String
  pub threats : List ThreatReport
  pub threats_error : Option String
  pub events : List KernelEvent
  pub events_error : Option String
  pub mutation_error : Option String
  pub refresh_seq : ℕ

abbrev pub initial : Guardian
initial = record {
  connected = false;
  health = none;
  health_error = none;
  threats = [];
  threats_error = none;
  events = [];
  events_error = none;
  mutation_error = none;
  refresh_seq = 0;
}

-- What a promise comes to: a value, an `Error` with its message, or another thrown value.
pub data Settled {ℓ} (A : Type ℓ) : Type ℓ where
  resolved : A → Settled A
  failed : String → Settled A
  thrown : Settled A

-- `upsertThreat`
unfoldable pub upsert_threat : List ThreatReport → ThreatReport → List ThreatReport
upsert_threat threats report =
    report ∷ filter (λ r. not (str_eq r.report_id report.report_id)) threats

-- `refreshHealth`, `refreshThreats` and `refreshEvents`, from the answer on.
unfoldable pub health_settled : Settled Health → Guardian → Guardian
health_settled (resolved next) g = record g { health = some next; health_error = none }
health_settled (failed message) g = record g { health_error = some message }
health_settled thrown g = record g { health_error = some "health fetch failed" }

unfoldable pub threats_settled : Settled (List ThreatReport) → Guardian → Guardian
threats_settled (resolved list) g = record g { threats = list; threats_error = none }
threats_settled (failed message) g = record g { threats_error = some message }
threats_settled thrown g = record g { threats_error = some "threats fetch failed" }

unfoldable pub events_settled : Settled (List KernelEvent) → Guardian → Guardian
events_settled (resolved list) g = record g { events = list; events_error = none }
events_settled (failed message) g = record g { events_error = some message }
events_settled thrown g = record g { events_error = some "events fetch failed" }

abbrev pub refresh_calls : List Call
refresh_calls = fetch_health ∷ fetch_threats default_limit ∷ fetch_events default_limit ∷ []

-- `refresh`
unfoldable pub refresh : Guardian → Guardian × List Call
refresh g = (record g { refresh_seq = g.refresh_seq + 1 }, refresh_calls)

-- `{ ...prev, ...patch }` on the fields of `Health`.
abbrev pub override {ℓ} : {A : Type ℓ} → Option A → Option A → Option A
override prev none = prev
override prev (some a) = some a

unfoldable pub merge_health : Option Health → Health → Health
merge_health none patch = patch
merge_health (some prev) patch = record {
  status = override prev.status patch.status;
  learning = override prev.learning patch.learning;
  baseline = override prev.baseline patch.baseline;
  threats = override prev.threats patch.threats;
  events_in_window = override prev.events_in_window patch.events_in_window;
  ready = override prev.ready patch.ready;
  telemetry = override prev.telemetry patch.telemetry;
}

-- What an item asks for: `item.kind === "report" && item.data?.report`, else
-- `item.kind === "health" && item.data?.health`, else nothing.
pub data ItemAction : Type 0 where
  shows_report : ThreatReport → ItemAction
  patches_health : Health → ItemAction
  ignored : ItemAction

abbrev report_of : Option FrameData → ItemAction
report_of (some d) = elim (d.report) [ some r ↦ shows_report r | none ↦ ignored ]
report_of none = ignored

abbrev health_of : Option FrameData → ItemAction
health_of (some d) = elim (d.health) [ some h ↦ patches_health h | none ↦ ignored ]
health_of none = ignored

abbrev action_of_kind : Option String → Option FrameData → ItemAction
action_of_kind none d = ignored
action_of_kind (some kind) d =
    if str_eq kind "report"
    then report_of d
    else if str_eq kind "health"
    then health_of d
    else ignored

unfoldable pub item_action : FrameItem → ItemAction
item_action item = action_of_kind item.kind item.payload

unfoldable pub run_item : ItemAction → Guardian → Guardian × List Call
unfolding upsert_threat merge_health
run_item (shows_report r) g =
    (record g { threats = upsert_threat g.threats r }, fetch_events default_limit ∷ [])
run_item (patches_health patch) g =
    (record g { health = some (merge_health g.health patch); health_error = none }, [])
run_item ignored g = (g, [])

-- The loop of `onFrame`.
unfoldable pub run_items : List FrameItem → Guardian → Guardian × List Call
unfolding run_item item_action
run_items [] g = (g, [])
run_items (item ∷ items) g =
    let (g', calls) = run_item (item_action item) g in
    let (g'', more) = run_items items g' in (g'', calls ++ more)

unfoldable pub on_frame : WsFrame → Guardian → Guardian × List Call
unfolding run_items
on_frame frame g = run_items frame.items g

-- The `onStatus` that the provider passes to the socket.
unfoldable pub set_connected : Bool → Guardian → Guardian
set_connected b g = record g { connected = b }

-- The two polling timers: every ten and every five seconds.
pub data Timer : Type 0 where
  health_timer events_timer : Timer

unfoldable pub tick : Timer → List Call
tick health_timer = fetch_health ∷ []
tick events_timer = fetch_events default_limit ∷ []

abbrev pub period_ms : Timer → ℕ
period_ms health_timer = 10000
period_ms events_timer = 5000

-- `labelReport`, `approve` and `reject`, from the answer on; the caller's promise settles the same
-- way.
abbrev pub report_settled :
    String → Settled ThreatReport → Guardian → Guardian × Settled ThreatReport
report_settled fallback (resolved updated) g = (
  record g { threats = upsert_threat g.threats updated; mutation_error = none },
  resolved updated,
)
report_settled fallback (failed message) g =
    (record g { mutation_error = some message }, failed message)
report_settled fallback thrown g = (record g { mutation_error = some fallback }, thrown)

unfoldable pub label_settled : Settled ThreatReport → Guardian → Guardian × Settled ThreatReport
unfolding upsert_threat
label_settled result g = report_settled "label failed" result g

unfoldable pub approve_settled : Settled ThreatReport → Guardian → Guardian × Settled ThreatReport
unfolding upsert_threat
approve_settled result g = report_settled "approve failed" result g

unfoldable pub reject_settled : Settled ThreatReport → Guardian → Guardian × Settled ThreatReport
unfolding upsert_threat
reject_settled result g = report_settled "reject failed" result g

unfoldable pub rollback_settled : Settled ℕ → Guardian → Guardian × Settled ℕ
rollback_settled (resolved count) g = (record g { mutation_error = none }, resolved count)
rollback_settled (failed message) g = (record g { mutation_error = some message }, failed message)
rollback_settled thrown g = (record g { mutation_error = some "rollback failed" }, thrown)

-- The call that each mutation of the context makes first.
unfoldable pub label_report : String → LabelRequest → Call
label_report id body = label_threat id body

unfoldable pub approve : String → ℕ → Call
approve id i = approve_action id i

unfoldable pub reject : String → ℕ → Call
reject id i = reject_action id i

unfoldable pub rollback : String → Call
rollback id = rollback_report id

-- `useGuardian`: the context's value, or an error outside a provider.
unfoldable pub use_guardian : Option Guardian → Settled Guardian
use_guardian none = failed "useGuardian must be used within a GuardianProvider"
use_guardian (some g) = resolved g
