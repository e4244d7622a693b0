-- ===== src/App/Asking.antt =====
-- Each request that a click can ask for is about something that is there.
use guardian_os_ai.Base.{
  ℕ, suc, ◌+◌, ◌≡◌, refl, sym, Bool, true, false, not, ◌&&◌, String, List, [], ◌∷◌, ◌++◌, Option,
  none, some, map, get_elem?, All, Any, All-append, All-map_each, arith, inl, inr, Bool-cases, ap,
  append-nil,
}
use guardian_os_ai.Platform.{Platform}
use guardian_os_ai.Api.Types.{ThreatReport, ResponseAction}
use guardian_os_ai.Context.Guardian.{Guardian}
use guardian_os_ai.Context.Sidebar.{Sidebar}
use guardian_os_ai.Pages.Threats.{has_executed, selected}
use guardian_os_ai.Pages.Threats.Listing.{selected-some}
use guardian_os_ai.Pages.Analysis
use guardian_os_ai.Pages.Analysis.Choice.{report-some}
use guardian_os_ai.Pages.Response.{statuses}
use guardian_os_ai.View.Overview.Offers.{overview_page-Offers}
use guardian_os_ai.View.Threats.Offers.{filters, threats_page-Offers}
use guardian_os_ai.View.Kernel.Offers.{kernel_page-Offers}
use guardian_os_ai.View.Processes.Offers.{processes_page-Offers}
use guardian_os_ai.View.Analysis.Offers.{selects, analysis_page-Offers}
use guardian_os_ai.View.Response.Offers.{response_page-Offers}
use guardian_os_ai.View.Health.Offers.{health_page-Offers}
use guardian_os_ai.View.Settings.Offers.{settings_page-Offers, not_found-Offers}
use guardian_os_ai.View.Layout.{app_layout}
use guardian_os_ai.View.Layout.Offers.{frame_clicks, app_layout-Offers}
use guardian_os_ai.App.{
  Page, overview, threats, kernel_activity, processes, ai_analysis, response, system_health,
  settings, missing, Router, Shown, page_at, Local, render_page, in_frame, screen,
}
use guardian_os_ai.View.Dom.{
  Intent, ask_approve, ask_reject, ask_rollback, ask_label, filter_severity, filter_status, Node,
  nothing, clicks, clicks_in, nodes, fragment, option_or,
}
use guardian_os_ai.View.Detail.Actions.{actionable}
use guardian_os_ai.View.Detail.Offers.{decisions, all_decisions, rollbacks, verdicts, offered}
use guardian_os_ai.View.Detail.Approvals.{Awaits, actionable_lem}

module _ (busy : ℕ → Bool) (labelling : Bool) (reports : List ThreatReport) where
  -- The report of the id is in the state, and its action at `i` waits for a decision.
  abbrev pub IsOpen : String → ℕ → Type 0
  IsOpen id i =
      (t : ThreatReport) × Any (λ u. u ≡ t) reports × (t.report_id ≡ id) × Awaits busy t.actions i i

  -- What a request presupposes.
  abbrev pub IsGrounded : Intent → Type 0
  IsGrounded (ask_approve id i) = IsOpen id i
  IsGrounded (ask_reject id i) = IsOpen id i
  IsGrounded (ask_rollback id) =
      (t : ThreatReport) × Any (λ u. u ≡ t) reports × (t.report_id ≡ id) × (has_executed t ≡ true)
  IsGrounded (ask_label id v) =
      (t : ThreatReport) × Any (λ u. u ≡ t) reports × (t.report_id ≡ id) × (labelling ≡ false)
  IsGrounded _ = Unit {0}

  module _ (r : ThreatReport) (there_is : Any (λ u. u ≡ r) reports) where
    decisions-AreGrounded :
        (i : ℕ) (a : ResponseAction)
        → get_elem? r.actions i ≡ some a
        → All IsGrounded (decisions r i a (busy i))
    unfolding decisions
    decisions-AreGrounded i a at_i = elim (Bool-cases (actionable a && not (busy i))) [
      | inl e ↦
          let waiting : IsOpen r.report_id i = (
            r,
            there_is,
            refl,
            record {
              action = a;
              there_is = at_i;
              waits = (actionable_lem a).0 (ground (arith, e));
              idle = ground (arith, e);
            },
          ) in
          rw e (waiting, (waiting, tt))
      | inr e ↦ rw e tt
    ]

    all_decisions-AreGrounded :
        (k : ℕ) (actions : List ResponseAction)
        → ((j n : ℕ) → n ≡ k + j → get_elem? actions j ≡ get_elem? r.actions n)
        → All IsGrounded (all_decisions r busy k actions)
    unfolding all_decisions
    all_decisions-AreGrounded k [] rest = tt
    all_decisions-AreGrounded k (a ∷ actions) rest =
        All-append IsGrounded (decisions r k a (busy k)) _
          (decisions-AreGrounded k a (sym (rest 0 k (omega arith))))
          (all_decisions-AreGrounded (k + 1) actions (λ j n e. rest (suc j) n (omega (arith, e))))

    rollbacks-AreGrounded : All IsGrounded (rollbacks r)
    unfolding rollbacks
    rollbacks-AreGrounded = elim (Bool-cases (has_executed r)) [
      | inl e ↦ rw e ((r, there_is, refl, e), tt)
      | inr e ↦ rw e tt
    ]

    verdicts-AreGrounded : All IsGrounded (verdicts r labelling)
    unfolding verdicts
    verdicts-AreGrounded = elim (Bool-cases labelling) [
      | inl e ↦ rw e tt
      | inr e ↦ rw e ((r, there_is, refl, refl), ((r, there_is, refl, refl), tt))
    ]

    report-AreGrounded : All IsGrounded (offered (some r) busy labelling)
    unfolding offered
    report-AreGrounded =
        All-append IsGrounded (all_decisions r busy 0 r.actions ++ rollbacks r) _
          (All-append IsGrounded (all_decisions r busy 0 r.actions) _
            (all_decisions-AreGrounded 0 r.actions
              (λ j n e. ap (get_elem? r.actions) (omega (arith, e))))
            rollbacks-AreGrounded)
          verdicts-AreGrounded

  pub offered-AreGrounded :
      (o : Option ThreatReport)
      → ((t : ThreatReport) → o ≡ some t → Any (λ u. u ≡ t) reports)
      → All IsGrounded (offered o busy labelling)
  unfolding offered
  offered-AreGrounded none listed = tt
  offered-AreGrounded (some r) listed = report-AreGrounded r (listed r refl)

module _ (R : Router) (P : Platform) (now : ℕ) (g : Guardian) (s : Sidebar) (l : Local)
    (path : String) where
  abbrev Grounded : Intent → Type 0
  Grounded = IsGrounded l.busy l.labelling g.threats

  page-AreGrounded :
      (report_id : Option String) (page : Page)
      → All Grounded (clicks (render_page P now g l report_id page))
  unfolding render_page
  page-AreGrounded report_id overview = rw (overview_page-Offers P now g) tt
  page-AreGrounded report_id threats =
      rw (threats_page-Offers P now g l.busy l.labelling l.wanted_severity report_id) (
        All-append Grounded (map filter_severity filters) _
          (All-map_each filter_severity Grounded (λ sev. tt) filters)
          (offered-AreGrounded l.busy l.labelling g.threats (selected report_id g.threats)
            (λ t e. (selected-some report_id g.threats e).2)))
  page-AreGrounded report_id kernel_activity = rw (kernel_page-Offers P g l.kind l.search) (tt, tt)
  page-AreGrounded report_id processes = rw (processes_page-Offers P now g l.suspicious_only) tt
  page-AreGrounded report_id ai_analysis =
      rw (analysis_page-Offers P now g l.busy l.labelling l.selected_id) (
        All-append Grounded (map selects (Analysis.sorted g.threats)) _
          (All-map_each selects Grounded (λ t. tt) (Analysis.sorted g.threats))
          (offered-AreGrounded l.busy l.labelling g.threats
            (Analysis.report l.selected_id g.threats)
            (λ t e. report-some l.selected_id g.threats e)))
  page-AreGrounded report_id response =
      rw (response_page-Offers P now g l.wanted_status)
        (All-map_each filter_status Grounded (λ status. tt) statuses)
  page-AreGrounded report_id system_health = rw (health_page-Offers P g) (tt, tt)
  page-AreGrounded report_id settings = rw (settings_page-Offers P g l.token) (tt, (tt, tt))
  page-AreGrounded report_id missing = rw not_found-Offers tt

  frame-AreGrounded : All Grounded (frame_clicks s)
  frame-AreGrounded = elim (Bool-cases s.is_mobile_open) [
    | inl e ↦ rw e (tt, (tt, (tt, tt)))
    | inr e ↦ rw e (tt, (tt, tt))
  ]

  framed-AreGrounded :
      (framed : Bool) (page : Node)
      → All Grounded (clicks page)
      → All Grounded (clicks (in_frame framed (app_layout g s path) page))
  unfolding clicks clicks_in fragment nodes
  framed-AreGrounded true page h =
      rw (app_layout-Offers g s path, append-nil (clicks page))
        (All-append Grounded (frame_clicks s) _ frame-AreGrounded h)
  framed-AreGrounded false page h = h

  shown-AreGrounded :
      (o : Option Shown)
      → All Grounded (
          clicks (
            option_or o
              (λ shown.
                in_frame shown.framed
                  (app_layout g s path)
                  (render_page P now g l shown.report_id shown.page))
              nothing))
  unfolding clicks option_or
  shown-AreGrounded none = tt
  shown-AreGrounded (some shown) =
      framed-AreGrounded shown.framed _ (page-AreGrounded shown.report_id shown.page)

-- Whatever the path, the filters and the choices: each approval and each rejection that a click can ask
-- for names a report of the state and an action of it that is recommended or pending approval and whose
-- row is not busy; each rollback names a report of the state with an executed action; each verdict names
-- a report of the state, while no verdict is under way.
pub screen-AreGrounded :
    (R : Router) (P : Platform) (now : ℕ) (g : Guardian) (s : Sidebar) (l : Local) (path : String)
    → All (IsGrounded l.busy l.labelling g.threats) (clicks (screen R P now g s l path))
unfolding screen
screen-AreGrounded R P now g s l path = shown-AreGrounded R P now g s l path (page_at R path)
