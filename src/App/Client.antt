-- ===== src/App/Client.antt =====
-- The whole client: the clicks on its screen, among the polling, the frames and the answers of the server.
use mathlib.Core.Path.{subst}
use guardian_os_ai.Base.{ℕ, ◌≡◌, refl, sym, String, List, [], ◌∷◌, none, Any, append-nil}
use guardian_os_ai.Platform.{Platform}
use guardian_os_ai.Api.Endpoints.{
  Call, label_threat, approve_action, reject_action, rollback_report,
}
use guardian_os_ai.Context.Guardian.{Guardian, refresh, label_report, approve, reject, rollback}
use guardian_os_ai.Context.Guardian.Requests
use guardian_os_ai.Context.Guardian.Requests.{
  World, issue, start, refreshes, ticks, frames, reports, asks, answers,
}
use guardian_os_ai.Context.Sidebar.{Sidebar}
use guardian_os_ai.View.Dom.{
  Intent, refresh_all, ask_approve, ask_reject, ask_rollback, ask_label, clicks,
}
use guardian_os_ai.App.{Router, Local, screen}

-- What the handler of each click calls of the provider: `approve`, `reject`, `rollback`, `labelReport`
-- and `refresh`; the others change the state of a page, of the sidebar or of the theme at first (the
-- refresh after a saved token comes later, as a step of its own).
unfoldable pub perform : Intent → Guardian → Guardian × List Call
unfolding approve reject rollback label_report refresh
perform (ask_approve id i) g = (g, approve id i ∷ [])
perform (ask_reject id i) g = (g, reject id i ∷ [])
perform (ask_rollback id) g = (g, rollback id ∷ [])
perform (ask_label id v) g = (g, label_report id (record { verdict = v; note = none }) ∷ [])
perform refresh_all g = refresh g
perform _ g = (g, [])

-- What happens without a click: all but a request for a change.
abbrev pub IsBackground : {w w' : World} → Requests.Step w w' → Type 0
IsBackground (asks w c m) = ⊥
IsBackground _ = Unit {0}

-- A click is on what the screen shows, at any path, with any state of the pages.
pub data Step (R : Router) (P : Platform) : World → World → Type 0 where
  clicked :
      (w : World) (now : ℕ) (s : Sidebar) (l : Local) (path : String) (x : Intent)
      → Any (λ y. y ≡ x) (clicks (screen R P now w.guardian s l path))
      → Step R P w (issue (perform x w.guardian) w)
  happens : {w w' : World} (st : Requests.Step w w') → IsBackground st → Step R P w w'

pub data Reach (R : Router) (P : Platform) : World → Type 0 where
  opened : Reach R P start
  then_step : {w w' : World} → Reach R P w → Step R P w w' → Reach R P w'

unchanged : (w : World) → Requests.Reach w → Requests.Reach (issue (w.guardian, []) w)
unchanged w r =
    subst (λ calls. Requests.Reach (record { guardian = w.guardian; in_flight = calls }))
      (sym (append-nil w.in_flight)) r

clicked-Reach :
    (w : World) (x : Intent) → Requests.Reach w → Requests.Reach (issue (perform x w.guardian) w)
unfolding perform
clicked-Reach w (ask_approve id i) r = Requests.next r (asks w (approve_action id i) refl)
clicked-Reach w (ask_reject id i) r = Requests.next r (asks w (reject_action id i) refl)
clicked-Reach w (ask_rollback id) r = Requests.next r (asks w (rollback_report id) refl)
clicked-Reach w (ask_label id v) r =
    Requests.next r (asks w (label_threat id (record { verdict = v; note = none })) refl)
clicked-Reach w refresh_all r = Requests.next r (refreshes w)
clicked-Reach w _ r = unchanged w r

-- The client with its pages is an instance of the provider among its requests: whatever is clicked, what
-- it reaches is reached by refreshes, ticks, frames, requests for a change and answers.
pub Reach-refines : {R : Router} {P : Platform} {w : World} → Reach R P w → Requests.Reach w
Reach-refines opened = Requests.here
Reach-refines (then_step r (clicked w now s l path x h)) = clicked-Reach w x (Reach-refines r)
Reach-refines (then_step r (happens st background)) = Requests.next (Reach-refines r) st
