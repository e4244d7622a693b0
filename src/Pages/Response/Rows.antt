-- ===== src/Pages/Response/Rows.antt =====
-- The table of the Response page against the actions of the reports.
use guardian_os_ai.Base.{
  ℕ, zero, suc, ◌+◌, ◌≡◌, refl, sym, ap, Bool, true, List, [], ◌∷◌, Option, none, some, filter,
  length, length-append, get_elem?, sort_desc, IsView, filter-sort_desc-IsView, filter-true, arith,
  Any, here, there, Any-append_left, Any-append_right, Any-of_get_elem?,
}
use guardian_os_ai.Api.Types.{ActionStatus, ResponseAction, ThreatReport, status_eq}
use guardian_os_ai.Pages.Response.{
  ActionRow, row_of, push_actions, all_rows, by_ts, keep_status, rows,
}

abbrev pub is_wanted : Option ActionStatus → ActionRow → Bool
is_wanted none r = true
is_wanted (some status) r = status_eq r.status status

keep_status_lem :
    (wanted : Option ActionStatus) (rs : List ActionRow)
    → keep_status wanted rs ≡ filter (is_wanted wanted) rs
keep_status_lem none rs = sym (filter-true rs)
keep_status_lem (some status) rs = refl

-- The table shows exactly the actions of the wanted status, all of them for "all": those of newer
-- reports first, and within one time in the order of the reports and of their actions.
pub action_rows-IsView :
    (wanted : Option ActionStatus) (threats : List ThreatReport)
    → IsView by_ts (is_wanted wanted) (all_rows threats) (rows wanted threats)
unfolding rows
action_rows-IsView wanted threats =
    rw (keep_status_lem wanted (sort_desc by_ts (all_rows threats)))
      (filter-sort_desc-IsView by_ts (is_wanted wanted) (all_rows threats))

abbrev pub total_actions : List ThreatReport → ℕ
total_actions [] = 0
total_actions (t ∷ ts) = length t.actions + total_actions ts

length-push_actions :
    (t : ThreatReport) (i : ℕ) (actions : List ResponseAction)
    → length (push_actions t i actions) ≡ length actions
unfolding push_actions
length-push_actions t i [] = refl
length-push_actions t i (a ∷ actions) = ap suc (length-push_actions t (i + 1) actions)

get-push_actions :
    (t : ThreatReport) (i k n : ℕ) (actions : List ResponseAction) {a : ResponseAction}
    → i + k ≡ n
    → get_elem? actions k ≡ some a
    → get_elem? (push_actions t i actions) k ≡ some (row_of t n a)
unfolding push_actions
get-push_actions t i k n [] s e = cc
get-push_actions t i zero n (b ∷ actions) s e = let same : i ≡ n = omega arith in cc
get-push_actions t i (suc k) n (b ∷ actions) s e =
    get-push_actions t (i + 1) k n actions (omega arith) e

length-all_rows : (ts : List ThreatReport) → length (all_rows ts) ≡ total_actions ts
unfolding all_rows
length-all_rows [] = refl
length-all_rows (t ∷ ts) = omega (
  arith,
  length-append (push_actions t 0 t.actions) (all_rows ts),
  length-push_actions t 0 t.actions,
  length-all_rows ts,
)

Any-all_rows :
    (ts : List ThreatReport) {t : ThreatReport} (k : ℕ) {a : ResponseAction}
    → Any (λ u. u ≡ t) ts
    → get_elem? t.actions k ≡ some a
    → Any (λ r. r ≡ row_of t k a) (all_rows ts)
unfolding all_rows
Any-all_rows [] k h e = elim h [ ]
Any-all_rows (u ∷ us) {t} k (here same) e =
    rw same (
      Any-append_left _ (Any-of_get_elem? _ k (get-push_actions t 0 k k t.actions (omega arith) e)))
Any-all_rows (u ∷ us) k (there h) e =
    Any-append_right (push_actions u 0 u.actions) (Any-all_rows us k h e)

-- Every action of every report has a row, with its index in its report, and there are as many rows
-- as actions.
pub all_rows_complete :
    (threats : List ThreatReport) (t : ThreatReport) (k : ℕ) (a : ResponseAction)
    → Any (λ u. u ≡ t) threats
    → get_elem? t.actions k ≡ some a
    → (length (all_rows threats) ≡ total_actions threats)
      × Any (λ r. r ≡ row_of t k a) (all_rows threats)
all_rows_complete threats t k a h e = (length-all_rows threats, Any-all_rows threats k h e)
