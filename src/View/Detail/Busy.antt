-- ===== src/View/Detail/Busy.antt =====
-- frontend/src/components/ThreatDetail.tsx: the `busy` of an `ActionRow` with the `run` that sets and
-- clears it, and the `labelBusy` of `ThreatDetail` with its `label`, among the clicks, the settling of the
-- requests that they made, and the mounting and unmounting of the components that hold the flags.
use guardian_os_ai.Base.{
  ℕ, ◌+◌, ◌-◌, ◌<◌, ◌≤◌, ◌≡◌, ◌⊎◌, refl, Bool, true, false, [], Any, arith, inl, inr,
}
use guardian_os_ai.Platform.{Platform}
use guardian_os_ai.Api.Types.{ThreatReport, ResponseAction}
use guardian_os_ai.View.Dom.{Intent, clicks}
use guardian_os_ai.View.Detail.{verdict_panel}
use guardian_os_ai.View.Detail.Actions.{action_row}
use guardian_os_ai.View.Detail.Offers.{decisions, verdicts, action_row-Offers, verdict_panel-Offers}

-- The flag of the component that is mounted now, how many of its own requests have not settled, how many
-- requests of components that were mounted in its place before have not settled, and how many such
-- components there were.
pub record Flag : Type 0 where
  pub busy : Bool
  pub in_flight : ℕ
  pub orphaned : ℕ
  pub unmounts : ℕ

-- The flag of a row and the flag of the verdict.
pub record Flags : Type 0 where
  pub row : Flag
  pub label : Flag

-- `useState(false)`
abbrev pub fresh : Flag
fresh = record { busy = false; in_flight = 0; orphaned = 0; unmounts = 0 }

abbrev pub initial : Flags
initial = record { row = fresh; label = fresh }

-- `setBusy(true)` and the request.
unfoldable pub started : Flag → Flag
started f = record f { busy = true; in_flight = f.in_flight + 1 }

-- `setBusy(false)` of the `finally`, which runs on success and on failure.
unfoldable pub settled : Flag → Flag
settled f = record f { busy = false; in_flight = f.in_flight - 1 }

-- The `finally` of a component that is gone, whose `setBusy(false)` sets no flag that is shown.
unfoldable pub orphan_settled : Flag → Flag
orphan_settled f = record f { orphaned = f.orphaned - 1 }

-- The component goes, and its state with it; its requests go on. Another one starts in its place.
unfoldable pub remounted : Flag → Flag
remounted f = record {
  busy = false;
  in_flight = 0;
  orphaned = f.orphaned + f.in_flight;
  unmounts = f.unmounts + 1;
}

-- `run`, up to its `await`, and its `finally`.
unfoldable pub run_started : Flags → Flags
unfolding started
run_started s = record s { row = started s.row }

unfoldable pub run_settled : Flags → Flags
unfolding settled
run_settled s = record s { row = settled s.row }

-- `label`, in the same two parts.
unfoldable pub label_started : Flags → Flags
unfolding started
label_started s = record s { label = started s.label }

unfoldable pub label_settled : Flags → Flags
unfolding settled
label_settled s = record s { label = settled s.label }

-- A click can only be on what is offered as it is shown; the report may have changed since.
pub data Step (P : Platform) (i : ℕ) : Flags → Flags → Type 0 where
  decided :
      (s : Flags) (r : ThreatReport) (a : ResponseAction) (x : Intent)
      → Any (λ y. y ≡ x) (clicks (action_row r i a s.row.busy))
      → Step P i s (run_started s)
  decision_settled : (s : Flags) → 0 < s.row.in_flight → Step P i s (run_settled s)
  labelled :
      (s : Flags) (r : ThreatReport) (x : Intent)
      → Any (λ y. y ≡ x) (clicks (verdict_panel P r s.label.busy))
      → Step P i s (label_started s)
  verdict_settled : (s : Flags) → 0 < s.label.in_flight → Step P i s (label_settled s)
  -- a report without an action at `i` is shown for a while
  row_remounted : (s : Flags) → Step P i s (record s { row = remounted s.row })
  -- the view of the report goes with its rows, and comes again
  detail_remounted :
      (s : Flags) → Step P i s (record { row = remounted s.row; label = remounted s.label })
  row_orphan_settled :
      (s : Flags) → 0 < s.row.orphaned → Step P i s (record s { row = orphan_settled s.row })
  label_orphan_settled :
      (s : Flags) → 0 < s.label.orphaned → Step P i s (record s { label = orphan_settled s.label })

pub data Reach (P : Platform) (i : ℕ) : Flags → Type 0 where
  shown : Reach P i initial
  then_step : {s s' : Flags} → Reach P i s → Step P i s s' → Reach P i s'

-- The flag says whether the mounted component has a request in flight, and it has at most one, as each
-- that went before it had.
pub record IsGuarded (f : Flag) : Type 0 where
  pub one_or_none : ((f.busy ≡ true) × (f.in_flight ≡ 1)) ⊎ ((f.busy ≡ false) × (f.in_flight ≡ 0))
  pub few_orphans : f.orphaned ≤ f.unmounts

fresh-IsGuarded : IsGuarded fresh
fresh-IsGuarded = record { one_or_none = inr (refl, refl); few_orphans = omega arith }

started-IsGuarded : (f : Flag) → f.busy ≡ false → IsGuarded f → IsGuarded (started f)
unfolding started
started-IsGuarded f idle g = record {
  one_or_none = inl (refl, ground (arith, idle, g.one_or_none));
  few_orphans = g.few_orphans;
}

settled-IsGuarded : (f : Flag) → 0 < f.in_flight → IsGuarded f → IsGuarded (settled f)
unfolding settled
settled-IsGuarded f h g = record {
  one_or_none = inr (refl, ground (arith, h, g.one_or_none));
  few_orphans = g.few_orphans;
}

orphan_settled-IsGuarded : (f : Flag) → IsGuarded f → IsGuarded (orphan_settled f)
unfolding orphan_settled
orphan_settled-IsGuarded f g = record {
  one_or_none = g.one_or_none;
  few_orphans = omega (arith, g.few_orphans);
}

remounted-IsGuarded : (f : Flag) → IsGuarded f → IsGuarded (remounted f)
unfolding remounted
remounted-IsGuarded f g = record {
  one_or_none = inr (refl, refl);
  few_orphans = ground (arith, g.one_or_none, g.few_orphans);
}

busy_row-Offers :
    (r : ThreatReport) (i : ℕ) (a : ResponseAction) → clicks (action_row r i a true) ≡ []
unfolding decisions
busy_row-Offers r i a = ground (arith, action_row-Offers r i a true)

busy-action_row :
    (r : ThreatReport) (i : ℕ) (a : ResponseAction) (b : Bool) (x : Intent)
    → Any (λ y. y ≡ x) (clicks (action_row r i a b))
    → b ≡ false
busy-action_row r i a false x h = refl
busy-action_row r i a true x h =
    let none_offered : Any (λ y. y ≡ x) [] = rw (← busy_row-Offers r i a) h in elim none_offered [ ]

busy-verdict_panel :
    (P : Platform) (r : ThreatReport) (b : Bool) (x : Intent)
    → Any (λ y. y ≡ x) (clicks (verdict_panel P r b))
    → b ≡ false
unfolding verdicts
busy-verdict_panel P r false x h = refl
busy-verdict_panel P r true x h =
    let none_offered : Any (λ y. y ≡ x) [] = rw (← verdict_panel-Offers P r true) h in
    elim none_offered [ ]

abbrev BothGuarded : Flags → Type 0
BothGuarded s = IsGuarded s.row × IsGuarded s.label

Step-BothGuarded :
    (P : Platform) (i : ℕ) {s s' : Flags} → Step P i s s' → BothGuarded s → BothGuarded s'
unfolding run_started run_settled label_started label_settled
Step-BothGuarded P i (decided s r a x h) (g, k) =
    (started-IsGuarded s.row (busy-action_row r i a s.row.busy x h) g, k)
Step-BothGuarded P i (decision_settled s h) (g, k) = (settled-IsGuarded s.row h g, k)
Step-BothGuarded P i (labelled s r x h) (g, k) =
    (g, started-IsGuarded s.label (busy-verdict_panel P r s.label.busy x h) k)
Step-BothGuarded P i (verdict_settled s h) (g, k) = (g, settled-IsGuarded s.label h k)
Step-BothGuarded P i (row_remounted s) (g, k) = (remounted-IsGuarded s.row g, k)
Step-BothGuarded P i (detail_remounted s) (g, k) =
    (remounted-IsGuarded s.row g, remounted-IsGuarded s.label k)
Step-BothGuarded P i (row_orphan_settled s h) (g, k) = (orphan_settled-IsGuarded s.row g, k)
Step-BothGuarded P i (label_orphan_settled s h) (g, k) = (g, orphan_settled-IsGuarded s.label k)

-- Whatever is clicked and whenever the requests settle, however the report changes in the meantime, and
-- however often a row or the view of the report is unmounted and mounted again: while a row is mounted at
-- most one of its decisions is in flight, and while the view is mounted at most one of its verdicts; the
-- row and the verdict are busy exactly then, so neither stays busy after its request has settled, with a
-- success or a failure. Of the requests that were made before an unmounting no more are still in flight
-- than there were unmountings; so at most one in all, if there was none.
pub Reach-IsGuarded :
    (P : Platform) (i : ℕ) {s : Flags} → Reach P i s → IsGuarded s.row × IsGuarded s.label
Reach-IsGuarded P i shown = (fresh-IsGuarded, fresh-IsGuarded)
Reach-IsGuarded P i (then_step h st) = Step-BothGuarded P i st (Reach-IsGuarded P i h)
