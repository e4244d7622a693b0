-- ===== src/Pages/Kernel.antt =====
-- frontend/src/pages/KernelActivity.tsx: the filtered telemetry stream. A kind is `none` for "all".
pub mod Search
use guardian_os_ai.Base.{
  ℕ, Bool, true, false, ◌||◌, String, List, [], ◌∷◌, Option, none, some, filter, includes, trim,
  truthy, decimal, if◌then◌else◌,
}
use guardian_os_ai.Platform.{Platform}
use guardian_os_ai.Api.Types.{
  EventKind, process_created, exec, network_connect, file_write, file_read, privilege_escalation,
  process_exited, socket_bind, module_load, authentication, signal, KernelEvent, Json, kind_eq,
}

abbrev pub event_kinds : List (Option EventKind)
event_kinds =
    none
    ∷ some process_created
    ∷ some exec
    ∷ some network_connect
    ∷ some file_write
    ∷ some file_read
    ∷ some privilege_escalation
    ∷ some process_exited
    ∷ some socket_bind
    ∷ some module_load
    ∷ some authentication
    ∷ some signal
    ∷ []

abbrev pub keep_kind : Option EventKind → List KernelEvent → List KernelEvent
keep_kind none list = list
keep_kind (some kind) list = filter (λ e. kind_eq e.kind kind) list

-- `e.details && JSON.stringify(e.details).toLowerCase().includes(q)`
abbrev pub details_include : Platform → String → Option Json → Bool
details_include P q none = false
details_include P q (some details) = includes (P.to_lower_case (P.stringify details)) q

unfoldable pub matches_query : Platform → String → KernelEvent → Bool
matches_query P q e =
    includes (P.to_lower_case e.exe) q
    || includes (decimal e.pid) q
    || details_include P q e.details

-- The memo `filtered`.
unfoldable pub filtered : Platform → Option EventKind → String → List KernelEvent → List KernelEvent
filtered P kind search events =
    let list = keep_kind kind events in
    if truthy (trim search)
    then filter (matches_query P (P.to_lower_case (trim search))) list
    else list

-- The period of the effect of the page, which calls `refresh` while the page is mounted.
abbrev pub refresh_ms : ℕ
refresh_ms = 5000
