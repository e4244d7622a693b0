-- ===== src/View/Detail/Offers.antt =====
-- What the view of a report lets its reader ask for.
use guardian_os_ai.Base.{
  Option, none, some, ℕ, ◌+◌, ◌≡◌, refl, ◌∙◌, Bool, not, ◌&&◌, String, List, [], ◌∷◌, ◌++◌, arith,
  inl, inr, Bool-cases, if◌then◌else◌, append_assoc, append-nil, length, ◌==◌,
}
use guardian_os_ai.Platform.{Platform}
use guardian_os_ai.Context.Guardian.{Guardian}
use guardian_os_ai.Pages.Threats.{has_executed}
use guardian_os_ai.Api.Types.{
  ThreatReport, ResponseAction, ChainStep, MitreReference, benign, malicious,
}
use guardian_os_ai.View.Dom.{
  Intent, nodes, element_of, fragment, text, class, when, when_text, when_node, is_disabled,
  own_clicks, clicks, clicks_in, ask_approve, ask_reject, ask_rollback, ask_label,
}
use guardian_os_ai.View.Dom.Lists.{clicks-each_none, clicks-when_text}
use guardian_os_ai.View.Ui.{tone_badge, panel, given}
use guardian_os_ai.View.Detail.{verdict_panel, threat_detail}
use guardian_os_ai.View.Detail.Actions.{actionable, action_row, action_rows, actions_panel}
use guardian_os_ai.View.Detail.Evidence.{
  feature_item, chain_item, technique_item, reasons_panel, risk_panel, evidence_panel,
}

-- The decisions that a row offers.
unfoldable pub decisions : ThreatReport → ℕ → ResponseAction → Bool → List Intent
decisions r i a busy =
    if actionable a && not busy
    then ask_approve r.report_id i ∷ ask_reject r.report_id i ∷ []
    else []

-- A row offers an approval and a rejection of its action exactly while the action waits for a decision
-- and no decision of this row is under way; otherwise a click in it asks for nothing.
pub action_row-Offers :
    (r : ThreatReport) (i : ℕ) (a : ResponseAction) (busy : Bool)
    → clicks (action_row r i a busy) ≡ decisions r i a busy
unfolding action_row clicks clicks_in nodes element_of fragment when is_disabled own_clicks
    decisions tone_badge
action_row-Offers r i a busy = ground arith

unfoldable pub all_decisions : ThreatReport → (ℕ → Bool) → ℕ → List ResponseAction → List Intent
unfolding decisions
all_decisions r busy i [] = []
all_decisions r busy i (a ∷ actions) =
    decisions r i a (busy i) ++ all_decisions r busy (i + 1) actions

action_rows-Offers :
    (r : ThreatReport) (busy : ℕ → Bool) (i : ℕ) (actions : List ResponseAction)
    → clicks_in (nodes (action_rows r busy i actions)) ≡ all_decisions r busy i actions
unfolding action_rows clicks clicks_in nodes all_decisions
action_rows-Offers r busy i [] = refl
action_rows-Offers r busy i (a ∷ actions) =
    rw (action_row-Offers r i a (busy i), action_rows-Offers r busy (i + 1) actions) refl

-- What the last two panels offer.
unfoldable pub rollbacks : ThreatReport → List Intent
rollbacks r = if has_executed r then ask_rollback r.report_id ∷ [] else []

unfoldable pub verdicts : ThreatReport → Bool → List Intent
verdicts r labelling =
    if labelling then [] else ask_label r.report_id benign ∷ ask_label r.report_id malicious ∷ []

actions_panel-Offers :
    (P : Platform) (r : ThreatReport) (busy : ℕ → Bool)
    → clicks (actions_panel P r busy) ≡ all_decisions r busy 0 r.actions ++ rollbacks r
unfolding actions_panel panel given clicks clicks_in nodes element_of fragment when when_node
    is_disabled own_clicks rollbacks
actions_panel-Offers P r busy =
    let decided = all_decisions r busy 0 r.actions in
    rw (action_rows-Offers r busy 0 r.actions) (elim (Bool-cases (length r.actions == 0)) [
      | inl e ↦ elim (Bool-cases (has_executed r)) [
        | inl h ↦
            rw (e, h, append-nil decided, append-nil (decided ++ ask_rollback r.report_id ∷ []))
              refl
        | inr h ↦ rw (e, h, append-nil decided) (append-nil (decided ++ []) ∙ append-nil decided)
      ]
      | inr e ↦ elim (Bool-cases (has_executed r)) [
        | inl h ↦
            rw (e, h, append-nil decided, append-nil (decided ++ ask_rollback r.report_id ∷ []))
              refl
        | inr h ↦ rw (e, h, append-nil decided) (append-nil (decided ++ []) ∙ append-nil decided)
      ]
    ])

pub verdict_panel-Offers :
    (P : Platform) (r : ThreatReport) (labelling : Bool)
    → clicks (verdict_panel P r labelling) ≡ verdicts r labelling
unfolding verdict_panel panel given clicks clicks_in nodes element_of fragment when when_node
    is_disabled own_clicks verdicts
verdict_panel-Offers P r labelling = ground arith

reasons_panel-Offers : (P : Platform) (r : ThreatReport) → clicks (reasons_panel P r) ≡ []
unfolding reasons_panel panel given clicks clicks_in nodes element_of fragment when when_node
    is_disabled own_clicks
reasons_panel-Offers P r =
    rw
      (clicks-each_none
        (λ reason.
          element_of "li" (class "flex gap-2 text-sm text-gray-600 dark:text-gray-300" ∷ []) (
            element_of "span" (class "mt-1.5 size-1.5 shrink-0 rounded-full bg-brand-500" ∷ []) []
            ∷ text reason
            ∷ []))
        (λ reason. refl) r.explanation.reasons)
      (ground arith)

chain_item-Offers : (step : ChainStep) → clicks (chain_item step) ≡ []
unfolding chain_item clicks clicks_in nodes element_of is_disabled own_clicks
chain_item-Offers step = refl

technique_item-Offers : (m : MitreReference) → clicks (technique_item m) ≡ []
unfolding technique_item clicks clicks_in nodes element_of is_disabled own_clicks
technique_item-Offers m = refl

feature_item-Offers : (P : Platform) (feature : String × ℕ) → clicks (feature_item P feature) ≡ []
unfolding feature_item clicks clicks_in nodes element_of is_disabled own_clicks
feature_item-Offers P (name, value) = refl

evidence_panel-Offers : (P : Platform) (r : ThreatReport) → clicks (evidence_panel P r) ≡ []
unfolding evidence_panel panel given clicks clicks_in nodes element_of fragment when when_node
    is_disabled own_clicks
evidence_panel-Offers P r = ground (
  arith,
  clicks-each_none chain_item chain_item-Offers r.explanation.chain,
  clicks-each_none technique_item technique_item-Offers r.explanation.mitre,
)

risk_panel-Offers : (P : Platform) (r : ThreatReport) → clicks (risk_panel P r) ≡ []
unfolding risk_panel panel given clicks clicks_in nodes element_of fragment when when_node
    is_disabled own_clicks tone_badge
risk_panel-Offers P r =
    rw (clicks-each_none (feature_item P) (feature_item-Offers P) r.detection.contributing_features)
      refl

-- Everything that a click in the view of a report can ask for, in order: a decision of each action that
-- waits for one and whose row is not busy; the rollback when an action has been executed; and the two
-- verdicts unless a verdict is under way.
pub threat_detail-Offers :
    (P : Platform) (now : ℕ) (g : Guardian) (busy : ℕ → Bool) (labelling : Bool) (r : ThreatReport)
    → clicks (threat_detail P now g busy labelling r)
      ≡ all_decisions r busy 0 r.actions ++ rollbacks r ++ verdicts r labelling
unfolding threat_detail panel given clicks clicks_in nodes element_of when_text when when_node
    is_disabled own_clicks
threat_detail-Offers P now g busy labelling r =
    rw
      (
        reasons_panel-Offers P r,
        risk_panel-Offers P r,
        evidence_panel-Offers P r,
        actions_panel-Offers P r busy,
        verdict_panel-Offers P r labelling,
        clicks-when_text g.mutation_error
            (λ message.
              element_of "div"
                (class
                    "rounded-md bg-error-50 px-3 py-2 text-xs text-error-700 dark:bg-error-950 dark:text-error-300"
                  ∷ [])
                (text message ∷ []))
            (λ message. refl),
        append-nil (verdicts r labelling),
        append_assoc (all_decisions r busy 0 r.actions) (rollbacks r) (verdicts r labelling),
      )
      refl

-- What the view of the selected report offers, and nothing when no report is selected.
unfoldable pub offered : Option ThreatReport → (ℕ → Bool) → Bool → List Intent
offered none busy labelling = []
offered (some r) busy labelling =
    all_decisions r busy 0 r.actions ++ rollbacks r ++ verdicts r labelling
