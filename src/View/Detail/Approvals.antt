-- ===== src/View/Detail/Approvals.antt =====
-- When the view of a report lets its reader approve an action.
use guardian_os_ai.Base.{
  ℕ, zero, suc, ◌+◌, ◌≡◌, ◌⊎◌, ◌↔◌, refl, Bool, true, false, String, List, [], ◌∷◌, ◌++◌,
  append_assoc, some, get_elem?, Any, here, there, Any-append_left, Any-append_right, arith, inl,
  inr, if◌then◌else◌, not, ◌&&◌,
}
use guardian_os_ai.Platform.{Platform}
use guardian_os_ai.Context.Guardian.{Guardian}
use guardian_os_ai.Api.Types.{
  ThreatReport, ResponseAction, recommended, pending_approval, status_eq_iff,
}
use guardian_os_ai.Pages.Threats.{has_executed}
use guardian_os_ai.View.Dom.{clicks, ask_approve}
use guardian_os_ai.View.Detail.{threat_detail}
use guardian_os_ai.View.Detail.Actions.{actionable}
use guardian_os_ai.View.Detail.Offers.{
  decisions, all_decisions, rollbacks, verdicts, threat_detail-Offers,
}

-- The action that stands at `i` waits for a decision, and no decision of the row `index` is under way.
pub record Awaits (busy : ℕ → Bool) (actions : List ResponseAction) (i : ℕ) (index : ℕ)
    : Type 0 where
  pub action : ResponseAction
  pub there_is : get_elem? actions i ≡ some action
  pub waits : (action.status ≡ recommended) ⊎ (action.status ≡ pending_approval)
  pub idle : busy index ≡ false

module _ {ℓ κ} {A : Type ℓ} {P : A → Type κ} where
  Any-append_cases : (xs : List A) {ys : List A} → Any P (xs ++ ys) → Any P xs ⊎ Any P ys
  Any-append_cases [] h = inr h
  Any-append_cases (x ∷ xs) (here h) = inl (here h)
  Any-append_cases (x ∷ xs) (there h) = elim (Any-append_cases xs h) [
    | inl l ↦ inl (there l)
    | inr m ↦ inr m
  ]

  Any-if : (b : Bool) (xs : List A) → Any P (if b then xs else []) → (b ≡ true) × Any P xs
  Any-if true xs h = (refl, h)
  Any-if false xs h = elim h [ ]

  Any-pair : {x y : A} → Any P (x ∷ y ∷ []) → P x ⊎ P y
  Any-pair (here p) = inl p
  Any-pair (there (here p)) = inr p
  Any-pair (there (there h)) = elim h [ ]

pub actionable_lem :
    (a : ResponseAction)
    → (actionable a ≡ true) ↔ ((a.status ≡ recommended) ⊎ (a.status ≡ pending_approval))
unfolding actionable
actionable_lem a =
    ground (arith, status_eq_iff a.status recommended, status_eq_iff a.status pending_approval)

module _ (r : ThreatReport) (busy : ℕ → Bool) (id : String) (i : ℕ) where
  in_decisions :
      (k : ℕ) (a : ResponseAction)
      → Any (λ x. x ≡ ask_approve id i) (decisions r k a (busy k))
      → (i ≡ k) × (r.report_id ≡ id) × (actionable a ≡ true) × (busy k ≡ false)
  unfolding decisions
  in_decisions k a h =
      let (both, offered) = Any-if (actionable a && not (busy k)) _ h in
      elim (Any-pair offered) [
        | inl e ↦ (cc, cc, ground (arith, both), ground (arith, both))
        | inr e ↦ cc
      ]

  in_all_decisions :
      (k : ℕ) (actions : List ResponseAction)
      → Any (λ x. x ≡ ask_approve id i) (all_decisions r busy k actions)
      → (j : ℕ) × (i ≡ k + j) × (r.report_id ≡ id) × Awaits busy actions j i
  unfolding all_decisions
  in_all_decisions k [] h = elim h [ ]
  in_all_decisions k (a ∷ actions) h = elim (Any-append_cases (decisions r k a (busy k)) h) [
    | inl at_head ↦
        let (same, named, waiting, idle) = in_decisions k a at_head in
        (
          0,
          omega (arith, same),
          named,
          record {
            action = a;
            there_is = refl;
            waits = (actionable_lem a).0 waiting;
            idle = rw same idle;
          },
        )
    | inr later ↦
        let (j, same, named, awaits) = in_all_decisions (k + 1) actions later in
        (
          suc j,
          omega (arith, same),
          named,
          record {
            action = awaits.action;
            there_is = awaits.there_is;
            waits = awaits.waits;
            idle = awaits.idle;
          },
        )
  ]

  in_rest :
      (labelling : Bool) → Any (λ x. x ≡ ask_approve id i) (rollbacks r ++ verdicts r labelling) → ⊥
  unfolding rollbacks verdicts
  in_rest labelling h = elim (Any-append_cases (rollbacks r) h) [
    | inl asked ↦ elim (Any-if (has_executed r) _ asked).1 [
      | here e ↦ cc
      | there none_left ↦ elim none_left [ ]
    ]
    | inr asked ↦ not_verdict labelling asked
  ]
    where
      not_verdict :
          (busy_label : Bool) → Any (λ x. x ≡ ask_approve id i) (verdicts r busy_label) → ⊥
      not_verdict true asked = elim asked [ ]
      not_verdict false asked = elim (Any-pair asked) [ inl e ↦ cc | inr e ↦ cc ]

  decisions_of :
      (k j n : ℕ) (actions : List ResponseAction) (a : ResponseAction)
      → n ≡ k + j
      → get_elem? actions j ≡ some a
      → actionable a ≡ true
      → busy n ≡ false
      → Any (λ x. x ≡ ask_approve r.report_id n) (all_decisions r busy k actions)
  unfolding all_decisions decisions
  decisions_of k j n [] a place e waits idle = cc
  decisions_of k zero n (b ∷ actions) a place e waits idle =
      let head_is : b ≡ a = cc in
      let at_k : k ≡ n = omega (arith, place) in
      let waiting : actionable b ≡ true = rw head_is waits in rw (at_k, waiting, idle) (here refl)
  decisions_of k (suc j) n (b ∷ actions) a place e waits idle =
      Any-append_right (decisions r k b (busy k))
        (decisions_of (k + 1) j n actions a (omega (arith, place)) e waits idle)

  at_index :
      (actions : List ResponseAction) (j : ℕ)
      → i ≡ j
      → Awaits busy actions j i
      → Awaits busy actions i i
  at_index actions j same h = record {
    action = h.action;
    there_is = rw same h.there_is;
    waits = h.waits;
    idle = h.idle;
  }

  offered :
      (labelling : Bool)
      → Any
          (λ x. x ≡ ask_approve id i)
          (all_decisions r busy 0 r.actions ++ (rollbacks r ++ verdicts r labelling))
      → (r.report_id ≡ id) × Awaits busy r.actions i i
  offered labelling h = elim (Any-append_cases (all_decisions r busy 0 r.actions) h) [
    | inl asked ↦
        let (j, same, named, awaits) = in_all_decisions 0 r.actions asked in
        (named, at_index r.actions j (omega (arith, same)) awaits)
    | inr asked ↦ elim (in_rest labelling asked) [ ]
  ]

  offers :
      (labelling : Bool)
      → (r.report_id ≡ id) × Awaits busy r.actions i i
      → Any
          (λ x. x ≡ ask_approve id i)
          (all_decisions r busy 0 r.actions ++ (rollbacks r ++ verdicts r labelling))
  offers labelling (named, awaits) = rw (← named) (
      Any-append_left (rollbacks r ++ verdicts r labelling) (
        decisions_of 0 i i r.actions awaits.action (omega arith) awaits.there_is
          ((actionable_lem awaits.action).1 awaits.waits) awaits.idle))

-- The view of a report offers an approval of the action at `i` exactly if the report has an action there,
-- that action is recommended or pending approval, and no decision of its row is under way. No other
-- report is ever named.
pub approval-IsOffered :
    (P : Platform) (now : ℕ) (g : Guardian) (busy : ℕ → Bool) (labelling : Bool) (r : ThreatReport)
    (id : String) (i : ℕ)
    → Any (λ x. x ≡ ask_approve id i) (clicks (threat_detail P now g busy labelling r))
      ↔ (r.report_id ≡ id) × Awaits busy r.actions i i
approval-IsOffered P now g busy labelling r id i =
    rw
      (
        threat_detail-Offers P now g busy labelling r,
        append_assoc (all_decisions r busy 0 r.actions) (rollbacks r) (verdicts r labelling),
      )
      (offered r busy id i labelling, offers r busy id i labelling)
