-- ===== src/Api/Endpoints/Requests.antt =====
-- The requests that the calls of the context become.
use guardian_os_ai.Base.{◌≡◌, refl, ◌⊎◌, inl, inr, String, [], none, some, if◌then◌else◌}
use guardian_os_ai.Platform.{Platform, Storage}
use guardian_os_ai.Api.Types.{LabelRequest}
use guardian_os_ai.Api.Client.{build_request}
use guardian_os_ai.Api.Client.Laws.{Carries, build_request-Carries}
use guardian_os_ai.Api.Endpoints.{
  Call, fetch_health, fetch_threats, fetch_threat, fetch_events, label_threat, approve_action,
  reject_action, rollback_report, call_path, call_init, label_body, is_mutation,
}

call_init_method :
    (P : Platform) (c : Call)
    → ((call_init P c).method ≡ (if is_mutation c then some "POST" else none))
      × (((call_init P c).body ≡ none)
          ⊎ ((id : String) × (b : LabelRequest) × (c ≡ label_threat id b)
              × ((call_init P c).body ≡ some (P.stringify (label_body b)))))
unfolding call_init
call_init_method P (label_threat id b) = (refl, inr (id, b, refl, refl))
call_init_method P fetch_health = (refl, inl refl)
call_init_method P (fetch_threats n) = (refl, inl refl)
call_init_method P (fetch_threat id) = (refl, inl refl)
call_init_method P (fetch_events n) = (refl, inl refl)
call_init_method P (approve_action id i) = (refl, inl refl)
call_init_method P (reject_action id i) = (refl, inl refl)
call_init_method P (rollback_report id) = (refl, inl refl)

call_init-headers : (P : Platform) (c : Call) → (call_init P c).headers ≡ []
unfolding call_init
call_init-headers P (label_threat id b) = refl
call_init-headers P fetch_health = refl
call_init-headers P (fetch_threats n) = refl
call_init-headers P (fetch_threat id) = refl
call_init-headers P (fetch_events n) = refl
call_init-headers P (approve_action id i) = refl
call_init-headers P (reject_action id i) = refl
call_init-headers P (rollback_report id) = refl

-- The request of a call goes to the path of the call, with the token's header exactly when a token that
-- is not empty is stored, and with the content type exactly when it has a body. It is a POST exactly
-- when the call asks for a change, and only a label has a body: the label as JSON.
pub call_requests-Carry :
    (P : Platform) (store : Storage) (c : Call)
    → Carries store
        (call_path c)
        (call_init P c)
        (build_request store (call_path c) (call_init P c))
      × ((build_request store (call_path c) (call_init P c)).method
          ≡ (if is_mutation c then some "POST" else none))
      × (((build_request store (call_path c) (call_init P c)).body ≡ none)
          ⊎ ((id : String) × (b : LabelRequest) × (c ≡ label_threat id b)
              × ((build_request store (call_path c) (call_init P c)).body
                  ≡ some (P.stringify (label_body b)))))
unfolding build_request
call_requests-Carry P store c = (
  build_request-Carries store (call_path c) (call_init P c) (call_init-headers P c),
  (call_init_method P c).0,
  (call_init_method P c).1,
)
