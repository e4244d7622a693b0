-- ===== src/App/Justified.antt =====
-- The requests for a change that the client makes, against the state in which it makes them.
use guardian_os_ai.Base.{
  ℕ, ◌≡◌, ◌⊎◌, Bool, true, String, List, [], ◌∷◌, ◌++◌, some, get_elem?, All, Any, there,
  All-append, All-imp, All-self, append-nil, All-at, Any-append_left, Any-append_right, inl, inr,
}
use guardian_os_ai.Platform.{Platform}
use guardian_os_ai.Api.Types.{
  ThreatReport, ResponseAction, FrameItem, recommended, pending_approval,
}
use guardian_os_ai.Api.Endpoints.{
  Call, label_threat, approve_action, reject_action, rollback_report,
}
use guardian_os_ai.Context.Guardian.{
  Guardian, refresh, on_frame, run_items, run_item, item_action, ItemAction, shows_report,
  patches_health, ignored, Timer, tick, health_timer, events_timer, approve, reject, rollback,
  label_report,
}
use guardian_os_ai.Context.Guardian.Requests
use guardian_os_ai.Context.Guardian.Requests.{
  World, refreshes, ticks, frames, reports, asks, answers, settle-issues,
}
use guardian_os_ai.Pages.Threats.{has_executed}
use guardian_os_ai.View.Dom.{Intent, refresh_all, ask_approve, ask_reject, ask_rollback, ask_label}
use guardian_os_ai.App.{Router}
use guardian_os_ai.App.Asking.{IsGrounded, screen-AreGrounded}
use guardian_os_ai.App.Client.{perform, Step, clicked, happens, IsBackground}

module _ (threats : List ThreatReport) where
  -- A report of the state has the id, and its action at `i` is recommended or pending approval.
  abbrev pub IsUndecided : String → ℕ → Type 0
  IsUndecided id i =
      (t : ThreatReport) × (a : ResponseAction) × Any (λ u. u ≡ t) threats
      × (t.report_id ≡ id)
      × (get_elem? t.actions i ≡ some a)
      × ((a.status ≡ recommended) ⊎ (a.status ≡ pending_approval))

  -- What a request for a change presupposes of the state; a request for data presupposes nothing.
  abbrev pub IsJustified : Call → Type 0
  IsJustified (approve_action id i) = IsUndecided id i
  IsJustified (reject_action id i) = IsUndecided id i
  IsJustified (rollback_report id) =
      (t : ThreatReport) × Any (λ u. u ≡ t) threats × (t.report_id ≡ id) × (has_executed t ≡ true)
  IsJustified (label_threat id b) =
      (t : ThreatReport) × Any (λ u. u ≡ t) threats × (t.report_id ≡ id)
  IsJustified _ = Unit {0}

perform-AreJustified :
    (busy : ℕ → Bool) (labelling : Bool) (g : Guardian) (x : Intent)
    → IsGrounded busy labelling g.threats x
    → All (IsJustified g.threats) (perform x g).1
unfolding perform refresh approve reject rollback label_report
perform-AreJustified busy labelling g (ask_approve id i) (t, there_is, named, open_there) =
    ((t, open_there.action, there_is, named, open_there.there_is, open_there.waits), tt)
perform-AreJustified busy labelling g (ask_reject id i) (t, there_is, named, open_there) =
    ((t, open_there.action, there_is, named, open_there.there_is, open_there.waits), tt)
perform-AreJustified busy labelling g (ask_rollback id) h = (h, tt)
perform-AreJustified busy labelling g (ask_label id v) (t, there_is, named, idle) =
    ((t, there_is, named), tt)
perform-AreJustified busy labelling g refresh_all h = (tt, (tt, (tt, tt)))
perform-AreJustified busy labelling g _ h = tt

run_item-AreJustified :
    (threats : List ThreatReport) (a : ItemAction) (g : Guardian)
    → All (IsJustified threats) (run_item a g).1
unfolding run_item
run_item-AreJustified threats (shows_report r) g = (tt, tt)
run_item-AreJustified threats (patches_health p) g = tt
run_item-AreJustified threats ignored g = tt

run_items-AreJustified :
    (threats : List ThreatReport) (items : List FrameItem) (g : Guardian)
    → All (IsJustified threats) (run_items items g).1
unfolding run_items
run_items-AreJustified threats [] g = tt
run_items-AreJustified threats (item ∷ items) g =
    All-append (IsJustified threats) _ _ (run_item-AreJustified threats (item_action item) g)
      (run_items-AreJustified threats items _)

tick-AreJustified : (threats : List ThreatReport) (t : Timer) → All (IsJustified threats) (tick t)
unfolding tick
tick-AreJustified threats health_timer = (tt, tt)
tick-AreJustified threats events_timer = (tt, tt)

-- A call that was in flight, or one that the state justifies.
abbrev pub IsOldOrJustified : World → Call → Type 0
IsOldOrJustified w c = Any (λ d. d ≡ c) w.in_flight ⊎ IsJustified w.guardian.threats c

issued :
    (w : World) (calls : List Call)
    → All (IsJustified w.guardian.threats) calls
    → All (IsOldOrJustified w) (w.in_flight ++ calls)
issued w calls h =
    All-append (IsOldOrJustified w) w.in_flight calls
      (All-imp (λ c old. inl old) w.in_flight (All-self w.in_flight))
      (All-imp (λ c new. inr new) calls h)

-- An answer leaves only calls that were in flight.
answered :
    (w : World) (before later : List Call) (c : Call)
    → w.in_flight ≡ before ++ c ∷ later
    → All (IsOldOrJustified w) (before ++ later)
answered w before later c e = rw e (
    All-append _ before later
      (All-imp (λ d old. inl (Any-append_left (c ∷ later) old)) before (All-self before))
      (All-imp (λ d old. inl (Any-append_right before (there old))) later (All-self later)))

background-AreJustified :
    {w w' : World} (st : Requests.Step w w')
    → IsBackground st
    → All (IsOldOrJustified w) w'.in_flight
unfolding refresh on_frame
background-AreJustified (refreshes w) b = issued w _ (tt, (tt, (tt, tt)))
background-AreJustified (ticks w t) b = issued w _ (tick-AreJustified w.guardian.threats t)
background-AreJustified (frames w f) b =
    issued w _ (run_items-AreJustified w.guardian.threats f.items w.guardian)
background-AreJustified (reports w up) b = issued w [] tt
background-AreJustified (asks w c m) b = elim b [ ]
background-AreJustified (answers w before later c a e honest) b =
    rw (settle-issues c a w.guardian, append-nil (before ++ later)) (answered w before later c e)

-- In every step of the client, each request that is in flight afterwards was so before, or the state
-- justifies it: an approval and a rejection name an action of a report of the state that is recommended
-- or pending approval, a rollback names a report of the state with an executed action, and a verdict
-- names a report of the state. Nothing else asks the server for a change.
pub Step-AreJustified :
    {R : Router} {P : Platform} {w w' : World}
    → Step R P w w'
    → All (IsOldOrJustified w) w'.in_flight
Step-AreJustified {R} {P} (clicked w now s l path x h) = issued w _ (
    perform-AreJustified l.busy l.labelling w.guardian x (
      All-at (IsGrounded l.busy l.labelling w.guardian.threats) _
        (screen-AreGrounded R P now w.guardian s l path) h))
Step-AreJustified (happens st background) = background-AreJustified st background
