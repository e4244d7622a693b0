-- ===== src/Context/Guardian/Errors.antt =====
-- What a failed and what a successful answer leaves of the data and of the error texts.
use guardian_os_ai.Base.{◌≡◌, refl, String, Option, some}
use guardian_os_ai.Api.Endpoints.{
  Call, fetch_health, fetch_threats, fetch_threat, fetch_events, label_threat, approve_action,
  reject_action, rollback_report,
}
use guardian_os_ai.Context.Guardian.{
  Guardian, failed, health_settled, threats_settled, events_settled, label_settled, approve_settled,
  reject_settled, rollback_settled,
}
use guardian_os_ai.Context.Guardian.Requests.{
  Answer, health_answer, threats_answer, events_answer, report_answer, count_answer, settle,
}

-- The answer by which a call of the provider fails with a message.
abbrev pub failing : Call → String → Answer
failing fetch_health m = health_answer (failed m)
failing (fetch_threats n) m = threats_answer (failed m)
failing (fetch_threat id) m = report_answer (failed m)
failing (fetch_events n) m = events_answer (failed m)
failing (label_threat id b) m = report_answer (failed m)
failing (approve_action id i) m = report_answer (failed m)
failing (reject_action id i) m = report_answer (failed m)
failing (rollback_report id) m = count_answer (failed m)

-- Where the page shows a failure of the call.
pub data Slot : Type 0 where
  of_health of_threats of_events of_mutation nowhere : Slot

abbrev pub slot : Call → Slot
slot fetch_health = of_health
slot (fetch_threats n) = of_threats
slot (fetch_threat id) = nowhere
slot (fetch_events n) = of_events
slot (label_threat id b) = of_mutation
slot (approve_action id i) = of_mutation
slot (reject_action id i) = of_mutation
slot (rollback_report id) = of_mutation

abbrev pub put_error : Slot → Option String → Guardian → Guardian
put_error of_health e g = record g { health_error = e }
put_error of_threats e g = record g { threats_error = e }
put_error of_events e g = record g { events_error = e }
put_error of_mutation e g = record g { mutation_error = e }
put_error nowhere e g = g

-- When a call of the provider fails, its message goes to the one error text of its kind, and
-- everything else stays: the data that was fetched before, and the errors of the other kinds.
pub settle-failing :
    (c : Call) (message : String) (g : Guardian)
    → (settle c (failing c message) g).0 ≡ put_error (slot c) (some message) g
unfolding settle health_settled threats_settled events_settled label_settled approve_settled
    reject_settled rollback_settled
settle-failing fetch_health m g = refl
settle-failing (fetch_threats n) m g = refl
settle-failing (fetch_threat id) m g = refl
settle-failing (fetch_events n) m g = refl
settle-failing (label_threat id b) m g = refl
settle-failing (approve_action id i) m g = refl
settle-failing (reject_action id i) m g = refl
settle-failing (rollback_report id) m g = refl
