-- ===== src/Pages/Analysis/Choice.antt =====
-- Which report the AI Analysis page shows.
use mathlib.Core.Path.{subst}
use guardian_os_ai.Base.{
  ◌≤◌, ◌≡◌, ◌⊎◌, refl, All-sort_desc, All-self, All-at, Any-of_find, String, List, [], ◌∷◌, Option,
  none, some, find, head?, sort_desc, str_eq, Any, here, there, All, eq_iff, eq_refl, Any-sort_desc,
  IsNewestFirst, sort_desc-IsNewestFirst, arith, Bool-cases, inl, inr,
}
use guardian_os_ai.Api.Types.{ThreatReport}
use guardian_os_ai.Pages.Threats.{by_time}
use guardian_os_ai.Pages.Analysis.{sorted, wanted_id, is_report, or_first, report}

find_named :
    (id : String) (ts : List ThreatReport)
    → Any (λ t. t.report_id ≡ id) ts
    → (t : ThreatReport) × (find (is_report (some id)) ts ≡ some t) × (t.report_id ≡ id)
find_named id [] h = elim h [ ]
find_named id (t ∷ ts) (here same) = rw ((eq_iff t.report_id id).1 same) (t, refl, same)
find_named id (t ∷ ts) (there h) = elim (Bool-cases (str_eq t.report_id id)) [
  | inl e ↦ rw e (t, refl, (eq_iff t.report_id id).0 e)
  | inr e ↦ rw e (find_named id ts h)
]

-- A report that was chosen is shown as long as the state holds a report of its id.
pub report_chosen :
    (id : String) (threats : List ThreatReport)
    → Any (λ t. t.report_id ≡ id) threats
    → (t : ThreatReport) × (report (some id) threats ≡ some t) × (t.report_id ≡ id)
unfolding report sorted
report_chosen id threats h =
    let (t, found, same) =
      find_named id (sort_desc by_time threats) (Any-sort_desc by_time threats h) in
    (t, rw found refl, same)

find_first : (list : List ThreatReport) → find (is_report (wanted_id none list)) list ≡ head? list
find_first [] = refl
find_first (t ∷ ts) = rw (eq_refl t.report_id) refl

or_first_head : (list : List ThreatReport) → or_first (head? list) list ≡ head? list
or_first_head [] = refl
or_first_head (t ∷ ts) = refl

-- Every report of the list is at most as new as its first.
head_newest :
    (list : List ThreatReport) {t : ThreatReport}
    → IsNewestFirst by_time list
    → head? list ≡ some t
    → All (λ u. u.timestamp ≤ t.timestamp) list
head_newest [] h e = tt
head_newest (u ∷ us) {t} (h, k) e =
    let same : u ≡ t = cc in
    subst (λ v. All (λ w. w.timestamp ≤ v.timestamp) (u ∷ us)) same (omega arith, h)

-- A report of the list that is at least as new as each of them, or none for the empty list.
abbrev pub IsNewestOf : Option ThreatReport → List ThreatReport → Type 0
IsNewestOf none list = list ≡ []
IsNewestOf (some t) list = (head? list ≡ some t) × All (λ u. u.timestamp ≤ t.timestamp) list

head-IsNewestOf :
    (list : List ThreatReport) → IsNewestFirst by_time list → IsNewestOf (head? list) list
head-IsNewestOf [] h = refl
head-IsNewestOf (t ∷ ts) h = (refl, head_newest (t ∷ ts) h refl)

-- While none is chosen, the page shows a newest report of the state, the first of the sorted list, and
-- none only when the list is empty.
pub report_unchosen :
    (threats : List ThreatReport) → IsNewestOf (report none threats) (sorted threats)
unfolding report sorted
report_unchosen threats =
    let list = sort_desc by_time threats in
    let first : or_first (find (is_report (wanted_id none list)) list) list ≡ head? list =
      rw (find_first list) (or_first_head list) in
    rw first (head-IsNewestOf list (sort_desc-IsNewestFirst by_time threats))

or_first-some :
    (o : Option ThreatReport) (list : List ThreatReport) {t : ThreatReport}
    → or_first o list ≡ some t
    → (o ≡ some t) ⊎ Any (λ u. u ≡ t) list
or_first-some (some u) list e = inl e
or_first-some none [] e = cc
or_first-some none (u ∷ us) e = inr (here (cc))

-- The report that the page shows is one of the state.
pub report-some :
    (selected_id : Option String) (threats : List ThreatReport) {t : ThreatReport}
    → report selected_id threats ≡ some t
    → Any (λ u. u ≡ t) threats
unfolding report sorted
report-some selected_id threats e =
    let list = sort_desc by_time threats in
    let among : All (λ t. Any (λ u. u ≡ t) threats) list =
      All-sort_desc (λ t. Any (λ u. u ≡ t) threats) by_time threats (All-self threats) in
    elim (or_first-some (find (is_report (wanted_id selected_id list)) list) list e) [
      | inl found ↦ All-at (λ t. Any (λ u. u ≡ t) threats) list among (Any-of_find _ list found)
      | inr listed ↦ All-at (λ t. Any (λ u. u ≡ t) threats) list among listed
    ]
