-- ===== src/App/Details.antt =====
-- The path of a report, followed to the report.
use guardian_os_ai.Base.{
  ℕ, ◌≡◌, ◌≢◌, refl, true, String, List, [], ◌∷◌, ◌++◌, some, map, find, str_eq, truthy, Any, here,
  there, ◌^^◌, All-at, eq_iff, eq_refl, arith, append-nil, Bool-cases, inl, inr, sym,
}
use guardian_os_ai.Platform.{Platform}
use guardian_os_ai.Api.Types.{ThreatReport}
use guardian_os_ai.Context.Guardian.Requests.{World, Reach-IsDistinct}
use guardian_os_ai.Context.Guardian.Upsert.{IsDistinct}
use guardian_os_ai.Context.Sidebar.{Sidebar}
use guardian_os_ai.Pages.Threats.{selected}
use guardian_os_ai.View.Dom.{clicks, clicks_in, nodes, fragment, option_or, filter_severity}
use guardian_os_ai.View.Detail.Offers.{offered}
use guardian_os_ai.View.Threats.Offers.{filters, threats_page-Offers}
use guardian_os_ai.View.Layout.Offers.{frame_clicks, app_layout-Offers}
use guardian_os_ai.App.{Router, Local, screen, render_page}
use guardian_os_ai.App.Routing.{IsRouter, is_segment, page_at-report}
use guardian_os_ai.App.Client.{Reach, Reach-refines}

-- Among distinct ids, the id of a report finds the report.
find-IsDistinct :
    (ts : List ThreatReport) (t : ThreatReport)
    → IsDistinct ts
    → Any (λ u. u ≡ t) ts
    → find (λ u. str_eq u.report_id t.report_id) ts ≡ some t
find-IsDistinct [] t h k = elim k [ ]
find-IsDistinct (u ∷ us) t (apart, h) (here same) = rw same (rw (eq_refl t.report_id) refl)
find-IsDistinct (u ∷ us) t (apart, h) (there later) =
    let other : t.report_id ≢ u.report_id =
      All-at (λ v. v.report_id ≢ u.report_id) us apart later in
    elim (Bool-cases (str_eq u.report_id t.report_id)) [
      | inl e ↦ absurd (other (sym ((eq_iff u.report_id t.report_id).0 e)))
      | inr e ↦ rw e (find-IsDistinct us t h later)
    ]

segment_truthy : (id : String) → is_segment id ≡ true → truthy id ≡ true
segment_truthy id plain = ground (arith, plain)

selected-listed :
    (ts : List ThreatReport) (t : ThreatReport)
    → IsDistinct ts
    → Any (λ u. u ≡ t) ts
    → is_segment t.report_id ≡ true
    → selected (some t.report_id) ts ≡ some t
unfolding selected
selected-listed ts t apart there_is plain =
    rw (segment_truthy t.report_id plain) (find-IsDistinct ts t apart there_is)

-- In whatever state the client has come to, the path of a report of the state shows that very report: what
-- is offered there is what the frame, the filters and the view of this report offer; if the id of the
-- report needs no encoding in a path.
pub report_path-Offers :
    (R : Router) (router : IsRouter R) (P : Platform) {w : World} (now : ℕ) (s : Sidebar)
    (l : Local) (t : ThreatReport)
    → Reach R P w
    → Any (λ u. u ≡ t) w.guardian.threats
    → is_segment t.report_id ≡ true
    → clicks (screen R P now w.guardian s l ("/threats/" ^^ t.report_id))
      ≡ frame_clicks s ++ (map filter_severity filters ++ offered (some t) l.busy l.labelling)
unfolding screen clicks clicks_in fragment nodes option_or render_page
report_path-Offers R router P {w} now s l t r there_is plain =
    rw
      (
        page_at-report R router t.report_id plain,
        app_layout-Offers w.guardian s ("/threats/" ^^ t.report_id),
        threats_page-Offers P now w.guardian l.busy l.labelling l.wanted_severity
            (some t.report_id),
        selected-listed w.guardian.threats t (Reach-IsDistinct (Reach-refines r)) there_is plain,
      )
      (simp append-nil)
