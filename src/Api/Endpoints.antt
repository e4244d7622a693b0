-- ===== src/Api/Endpoints.antt =====
-- frontend/src/api/guardian.ts: a call of the context and the request that it becomes.
pub mod Requests
pub mod Paths
use guardian_os_ai.Base.{
  ℕ, ◌≡◌, refl, ◌⊎◌, inl, inr, if◌then◌else◌, Bool, true, false, String, Option, none, some, ◌^^◌,
  decimal,
}
use guardian_os_ai.Platform.{Platform, Storage}
use guardian_os_ai.Api.Types.{Json, str, obj, Fields, end, field, LabelRequest, verdict_name}
use guardian_os_ai.Api.Client.{Outcome, Sent, Reply, Init, request, get_init, json_init}

-- One constructor for each exported function; `fetchThreat` has a constructor, though no page calls it.
pub data Call : Type 0 where
  fetch_health : Call
  fetch_threats : ℕ → Call
  fetch_threat : String → Call
  fetch_events : ℕ → Call
  label_threat : String → LabelRequest → Call
  approve_action : String → ℕ → Call
  reject_action : String → ℕ → Call
  rollback_report : String → Call

-- The default of `limit`.
abbrev pub default_limit : ℕ
default_limit = 200

-- `{ verdict, note }`, in which an undefined `note` has no member.
abbrev note_member : Option String → Fields
note_member none = end
note_member (some n) = field "note" (str n) end

unfoldable pub label_body : LabelRequest → Json
label_body b = obj (field "verdict" (str (verdict_name b.verdict)) (note_member b.note))

abbrev pub report_path : String → String
report_path id = "/api/threats/" ^^ id

abbrev pub action_path : String → ℕ → String → String
action_path id i verb = report_path id ^^ "/actions/" ^^ decimal i ^^ "/" ^^ verb

unfoldable pub call_path : Call → String
call_path fetch_health = "/api/health"
call_path (fetch_threats limit) = "/api/threats?limit=" ^^ decimal limit
call_path (fetch_threat id) = report_path id
call_path (fetch_events limit) = "/api/events?limit=" ^^ decimal limit
call_path (label_threat id body) = report_path id ^^ "/label"
call_path (approve_action id i) = action_path id i "approve"
call_path (reject_action id i) = action_path id i "reject"
call_path (rollback_report id) = report_path id ^^ "/rollback"

-- Each wrapper is `api.get(path)`, `api.post(path)` or `api.post(path, body)`.
unfoldable pub call_init : Platform → Call → Init
unfolding get_init json_init
call_init P (label_threat id body) = json_init P "POST" (some (label_body body))
call_init P (approve_action id i) = json_init P "POST" none
call_init P (reject_action id i) = json_init P "POST" none
call_init P (rollback_report id) = json_init P "POST" none
call_init P _ = get_init

unfoldable pub send_call : Platform → Storage → (Sent → Reply) → Call → Outcome Json
send_call P store fetch c = request P store fetch (call_path c) (call_init P c)

-- The calls that ask the server to change something.
abbrev pub is_mutation : Call → Bool
is_mutation (label_threat id body) = true
is_mutation (approve_action id i) = true
is_mutation (reject_action id i) = true
is_mutation (rollback_report id) = true
is_mutation _ = false
