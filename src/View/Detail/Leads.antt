-- ===== src/View/Detail/Leads.antt =====
-- Where the view of a report leads: nowhere within the application.
use guardian_os_ai.Base.{ℕ, ◌+◌, ◌≡◌, refl, Bool, String, List, [], ◌∷◌, arith}
use guardian_os_ai.Platform.{Platform}
use guardian_os_ai.Context.Guardian.{Guardian}
use guardian_os_ai.Api.Types.{ThreatReport, ResponseAction, ChainStep, MitreReference}
use guardian_os_ai.View.Dom.{
  nodes, element_of, fragment, when, when_node, own_links, links, links_in,
}
use guardian_os_ai.View.Dom.Lists.{links-each_none, links-when_text}
use guardian_os_ai.View.Ui.{tone_badge, panel, given}
use guardian_os_ai.View.Detail.{verdict_panel, threat_detail}
use guardian_os_ai.View.Detail.Actions.{action_row, action_rows, actions_panel}
use guardian_os_ai.View.Detail.Evidence.{
  feature_item, chain_item, technique_item, reasons_panel, risk_panel, evidence_panel,
}

action_row-Leads :
    (r : ThreatReport) (i : ℕ) (a : ResponseAction) (busy : Bool)
    → links (action_row r i a busy) ≡ []
unfolding action_row links links_in nodes element_of when own_links tone_badge
action_row-Leads r i a busy = ground arith

action_rows-Leads :
    (r : ThreatReport) (busy : ℕ → Bool) (i : ℕ) (actions : List ResponseAction)
    → links_in (nodes (action_rows r busy i actions)) ≡ []
unfolding action_rows links links_in nodes
action_rows-Leads r busy i [] = refl
action_rows-Leads r busy i (a ∷ actions) =
    rw (action_row-Leads r i a (busy i), action_rows-Leads r busy (i + 1) actions) refl

actions_panel-Leads :
    (P : Platform) (r : ThreatReport) (busy : ℕ → Bool) → links (actions_panel P r busy) ≡ []
unfolding actions_panel panel given links links_in nodes element_of fragment when when_node
    own_links
actions_panel-Leads P r busy = rw (action_rows-Leads r busy 0 r.actions) (ground arith)

verdict_panel-Leads :
    (P : Platform) (r : ThreatReport) (labelling : Bool) → links (verdict_panel P r labelling) ≡ []
unfolding verdict_panel panel given links links_in nodes element_of when when_node own_links
verdict_panel-Leads P r labelling = refl

feature_item-Leads : (P : Platform) (f : String × ℕ) → links (feature_item P f) ≡ []
unfolding feature_item links links_in nodes element_of own_links
feature_item-Leads P (name, value) = refl

chain_item-Leads : (s : ChainStep) → links (chain_item s) ≡ []
unfolding chain_item links links_in nodes element_of own_links
chain_item-Leads s = refl

technique_item-Leads : (m : MitreReference) → links (technique_item m) ≡ []
unfolding technique_item links links_in nodes element_of own_links
technique_item-Leads m = refl

reasons_panel-Leads : (P : Platform) (r : ThreatReport) → links (reasons_panel P r) ≡ []
unfolding reasons_panel panel given links links_in nodes element_of when when_node own_links
reasons_panel-Leads P r =
    rw (links-each_none _ (λ reason. refl) r.explanation.reasons) (ground arith)

risk_panel-Leads : (P : Platform) (r : ThreatReport) → links (risk_panel P r) ≡ []
unfolding risk_panel panel given links links_in nodes element_of when when_node own_links tone_badge
risk_panel-Leads P r =
    rw (links-each_none (feature_item P) (feature_item-Leads P) r.detection.contributing_features)
      refl

evidence_panel-Leads : (P : Platform) (r : ThreatReport) → links (evidence_panel P r) ≡ []
unfolding evidence_panel panel given links links_in nodes element_of when when_node own_links
evidence_panel-Leads P r = ground (
  arith,
  links-each_none chain_item chain_item-Leads r.explanation.chain,
  links-each_none technique_item technique_item-Leads r.explanation.mitre,
)

pub threat_detail-Leads :
    (P : Platform) (now : ℕ) (g : Guardian) (busy : ℕ → Bool) (labelling : Bool) (r : ThreatReport)
    → links (threat_detail P now g busy labelling r) ≡ []
unfolding threat_detail panel given links links_in nodes element_of when when_node own_links
threat_detail-Leads P now g busy labelling r =
    rw
      (
        links-when_text g.mutation_error _ (λ message. refl),
        reasons_panel-Leads P r,
        risk_panel-Leads P r,
        evidence_panel-Leads P r,
        actions_panel-Leads P r busy,
        verdict_panel-Leads P r labelling,
      )
      refl
