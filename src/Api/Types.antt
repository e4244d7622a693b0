-- ===== src/Api/Types.antt =====
-- frontend/src/api/types.ts. A timestamp is a whole number of microseconds since the epoch; a score
-- is a whole number of millionths. `undefined` and `null` are `none`.
use guardian_os_ai.Base.{ℕ, Bool, false, true, String, List, Option, str_eq, ◌≡◌, ◌↔◌, arith}

pub data Severity : Type 0 where
  info low medium high critical : Severity

pub data ActionType : Type 0 where
  kill_process freeze_process block_ip quarantine_file : ActionType

pub data ActionStatus : Type 0 where
  recommended pending_approval approved rejected executed failed : ActionStatus

pub data EventKind : Type 0 where
  process_created process_exited exec network_connect file_write file_read : EventKind
  privilege_escalation authentication module_load socket_bind signal : EventKind

-- A value of which the code knows nothing (`unknown`).
mutual
  pub data Json : Type 0 where
    null : Json
    bool : Bool → Json
    num : ℕ → Json
    str : String → Json
    arr : Items → Json
    obj : Fields → Json

  pub data Items : Type 0 where
    nil : Items
    cons : Json → Items → Items

  pub data Fields : Type 0 where
    end : Fields
    field : String → Json → Fields → Fields

-- The pages guard against an event with no `cmdline` or no `details`, so both may be missing.
pub record KernelEvent : Type 0 where
  pub event_id : String
  pub kind : EventKind
  pub timestamp : ℕ
  pub pid : ℕ
  pub ppid : ℕ
  pub exe : String
  pub cmdline : Option (List String)
  pub uid : Option ℕ
  pub username : Option String
  pub cwd : Option String
  pub details : Option Json

pub record ChainStep : Type 0 where
  pub position : ℕ
  pub description : String
  pub kind : String
  pub exe : String
  pub pid : ℕ
  pub suspicious : Bool
  pub detail : Option String

pub record ChainNode : Type 0 where
  pub id : String
  pub pid : ℕ
  pub ppid : ℕ
  pub exe : String
  pub kind : String
  pub timestamp : ℕ
  pub description : String
  pub suspicious : Bool

pub data EdgeKind : Type 0 where
  spawn attach : EdgeKind

pub record ChainEdge : Type 0 where
  pub source : String
  pub target : String
  pub kind : EdgeKind

pub record ChainDag : Type 0 where
  pub nodes : List ChainNode
  pub edges : List ChainEdge
  pub roots : List String

pub record MitreReference : Type 0 where
  pub technique_id : String
  pub name : String
  pub tactic : String
  pub url : String
  pub confidence : ℕ

pub record Explanation : Type 0 where
  pub summary : String
  pub reasons : List String
  pub chain : List ChainStep
  pub mitre : List MitreReference
  pub dag : Option ChainDag
  pub confidence : ℕ
  pub severity : Severity

pub record DetectionContext : Type 0 where
  pub chain_key : String
  pub window : ℕ × ℕ
  pub ml_score : ℕ
  pub signal_score : ℕ

pub record DetectionResult : Type 0 where
  pub pid : ℕ
  pub exe : String
  pub raw_score : ℕ
  pub anomaly_score : ℕ
  pub confidence : ℕ
  pub severity : Severity
  pub flagged : Bool
  pub contributing_features : List (String × ℕ)
  pub context : DetectionContext

pub record ResponseAction : Type 0 where
  pub action_type : ActionType
  pub description : String
  pub destructive : Bool
  pub requires_approval : Bool
  pub target : Json
  pub status : ActionStatus
  pub rationale : String

pub record ThreatReport : Type 0 where
  pub report_id : String
  pub timestamp : ℕ
  pub detection : DetectionResult
  pub explanation : Explanation
  pub actions : List ResponseAction

pub record ProviderHealth : Type 0 where
  pub provider : String
  pub running : Bool
  pub started_at : Option ℕ
  pub last_collect_at : Option ℕ
  pub events_delivered : ℕ
  pub drops_total : ℕ
  pub drops_recent : ℕ
  pub rate_limited : ℕ
  pub restarts : ℕ
  pub last_error : Option String
  pub source : List (String × Json)

-- The UI also holds a `Partial<Health>` under this type (a first WebSocket frame has no `status`),
-- so each field may be undefined.
pub record Health : Type 0 where
  pub status : Option String
  pub learning : Option Bool
  pub baseline : Option ℕ
  pub threats : Option ℕ
  pub events_in_window : Option ℕ
  pub ready : Option Bool
  pub telemetry : Option ProviderHealth

-- One item of a WebSocket frame, as `JSON.parse` gives it: each part may be missing.
pub record FrameData : Type 0 where
  pub report : Option ThreatReport
  pub health : Option Health

pub record FrameItem : Type 0 where
  pub kind : Option String
  pub payload : Option FrameData

pub record WsFrame : Type 0 where
  pub seq : ℕ
  pub items : List FrameItem

pub data Verdict : Type 0 where
  benign malicious : Verdict

pub record LabelRequest : Type 0 where
  pub verdict : Verdict
  pub note : Option String

pub record RollbackResponse : Type 0 where
  pub report_id : String
  pub rolled_back : ℕ

-- The strings of the unions, and `===` on them.
unfoldable pub severity_name : Severity → String
severity_name info = "info"
severity_name low = "low"
severity_name medium = "medium"
severity_name high = "high"
severity_name critical = "critical"

unfoldable pub severity_eq : Severity → Severity → Bool
severity_eq info info = true
severity_eq low low = true
severity_eq medium medium = true
severity_eq high high = true
severity_eq critical critical = true
severity_eq _ _ = false

unfoldable pub action_type_name : ActionType → String
action_type_name kill_process = "kill_process"
action_type_name freeze_process = "freeze_process"
action_type_name block_ip = "block_ip"
action_type_name quarantine_file = "quarantine_file"

unfoldable pub status_name : ActionStatus → String
status_name recommended = "recommended"
status_name pending_approval = "pending_approval"
status_name approved = "approved"
status_name rejected = "rejected"
status_name executed = "executed"
status_name failed = "failed"

unfoldable pub status_eq : ActionStatus → ActionStatus → Bool
status_eq recommended recommended = true
status_eq pending_approval pending_approval = true
status_eq approved approved = true
status_eq rejected rejected = true
status_eq executed executed = true
status_eq failed failed = true
status_eq _ _ = false

unfoldable pub kind_name : EventKind → String
kind_name process_created = "process_created"
kind_name process_exited = "process_exited"
kind_name exec = "exec"
kind_name network_connect = "network_connect"
kind_name file_write = "file_write"
kind_name file_read = "file_read"
kind_name privilege_escalation = "privilege_escalation"
kind_name authentication = "authentication"
kind_name module_load = "module_load"
kind_name socket_bind = "socket_bind"
kind_name signal = "signal"

unfoldable pub kind_eq : EventKind → EventKind → Bool
kind_eq a b = str_eq (kind_name a) (kind_name b)

unfoldable pub verdict_name : Verdict → String
verdict_name benign = "benign"
verdict_name malicious = "malicious"

pub severity_eq_iff : (a b : Severity) → (severity_eq a b ≡ true) ↔ (a ≡ b)
unfolding severity_eq
severity_eq_iff a b = ground arith

pub status_eq_iff : (a b : ActionStatus) → (status_eq a b ≡ true) ↔ (a ≡ b)
unfolding status_eq
status_eq_iff a b = ground arith
