-- ===== src/Examples/Calls.antt =====
-- The path of a call, and the calls in flight after the first refresh.
use guardian_os_ai.Base.{ℕ, ◌+◌, ◌≡◌, refl, true, [], some, length}
use guardian_os_ai.Api.Endpoints.{call_path, approve_action}
use guardian_os_ai.Api.Endpoints.Paths.{read_path, its_action, read_path-call_path}
use guardian_os_ai.Context.Guardian.Requests.{World, start}
use guardian_os_ai.Context.Guardian.Quiet.{Answered, answers_end}

read_path-call_path_example :
    read_path (call_path (approve_action "9f3c" 12)) ≡ some (its_action "9f3c" 12 true)
read_path-call_path_example = read_path-call_path (approve_action "9f3c" 12) refl

answers_end_example :
    ((n : ℕ) (w' : World) → Answered n start w' → n + length w'.in_flight ≡ length start.in_flight)
    × ((w' : World) → Answered (length start.in_flight) start w' → w'.in_flight ≡ [])
    × ((w' : World) × Answered (length start.in_flight) start w')
answers_end_example = answers_end start
