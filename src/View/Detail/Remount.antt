-- ===== src/View/Detail/Remount.antt =====
-- What the flags do not guard: the requests of rows that are gone.
use guardian_os_ai.Platform.{Platform}
use guardian_os_ai.View.Detail.Busy.{Flags, run_started, remounted}

-- The row of a report whose action at `i` waits is decided and unmounted.
abbrev once_more : Flags → Flags
once_more s = let t = run_started s in record t { row = remounted t.row }
