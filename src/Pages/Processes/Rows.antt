-- ===== src/Pages/Processes/Rows.antt =====
-- A row of the process table against the events and the reports of its process.
use guardian_os_ai.Base.{
  ℕ, ◌≡◌, ◌≢◌, refl, sym, ◌∙◌, Bool, true, false, List, [], ◌∷◌, Option, some, filter, find,
  or_else, ◌==◌, if◌then◌else◌, All, IsView, sort_desc-filter-IsView, filter-true, arith,
  Bool-cases, inl, inr,
}
use guardian_os_ai.Api.Types.{KernelEvent, ThreatReport}
use guardian_os_ai.Pages.Processes.{
  ProcRow, with_row, fresh_row, visit_event, visit_threat, add_events, add_threats, observed,
  is_suspicious, by_last_seen, keep_suspicious, rows,
}

abbrev pub find_row : ℕ → List ProcRow → Option ProcRow
find_row pid = find (λ row. row.pid == pid)

abbrev pub IsDistinct : List ProcRow → Type 0
IsDistinct [] = Unit
IsDistinct (row ∷ rows) = All (λ r. r.pid ≢ row.pid) rows × IsDistinct rows

module _ (pid : ℕ) (fresh : ProcRow) (visit : ProcRow → ProcRow)
    (keeps : (row : ProcRow) → (visit row).pid ≡ row.pid) (named : fresh.pid ≡ pid) where
  pub find-with_row :
      (p : ℕ) (rs : List ProcRow)
      → find_row p (with_row pid fresh visit rs)
        ≡ (if pid == p then some (visit (or_else (find_row p rs) fresh)) else find_row p rs)
  unfolding with_row
  find-with_row p [] = ground (arith, keeps fresh)
  find-with_row p (row ∷ rs) = ground (arith, keeps row, find-with_row p rs)

  All-with_row :
      (q : ℕ) (rs : List ProcRow)
      → q ≢ pid
      → All (λ r. r.pid ≢ q) rs
      → All (λ r. r.pid ≢ q) (with_row pid fresh visit rs)
  unfolding with_row
  All-with_row q [] ne h = ((λ e. ne (sym e ∙ keeps fresh ∙ named)), tt)
  All-with_row q (row ∷ rs) ne (h, k) = elim (Bool-cases (row.pid == pid)) [
    | inl e ↦ rw e ((λ f. h (sym (keeps row) ∙ f)), k)
    | inr e ↦ rw e (h, All-with_row q rs ne k)
  ]

  with_row-IsDistinct :
      (rs : List ProcRow) → IsDistinct rs → IsDistinct (with_row pid fresh visit rs)
  unfolding with_row
  with_row-IsDistinct [] h = (tt, tt)
  with_row-IsDistinct (row ∷ rs) (h, k) = elim (Bool-cases (row.pid == pid)) [
    | inl e ↦ rw e (rw (keeps row) h, k)
    | inr e ↦ rw e (All-with_row row.pid rs (ground arith) h, with_row-IsDistinct rs k)
  ]

pub visit_event-pid : (e : KernelEvent) (row : ProcRow) → (visit_event e row).pid ≡ row.pid
unfolding visit_event
visit_event-pid e row = ground arith

pub visit_threat-pid : (t : ThreatReport) (row : ProcRow) → (visit_threat t row).pid ≡ row.pid
unfolding visit_threat
visit_threat-pid t row = refl

add_events-IsDistinct :
    (es : List KernelEvent) (rs : List ProcRow) → IsDistinct rs → IsDistinct (add_events es rs)
unfolding add_events
add_events-IsDistinct [] rs h = h
add_events-IsDistinct (e ∷ es) rs h = add_events-IsDistinct es _ (
    with_row-IsDistinct e.pid (fresh_row e.pid e.exe 0) (visit_event e) (visit_event-pid e) refl rs
      h)

add_threats-IsDistinct :
    (ts : List ThreatReport) (rs : List ProcRow) → IsDistinct rs → IsDistinct (add_threats ts rs)
unfolding add_threats
add_threats-IsDistinct [] rs h = h
add_threats-IsDistinct (t ∷ ts) rs h = add_threats-IsDistinct ts _ (
    with_row-IsDistinct t.detection.pid (fresh_row t.detection.pid t.detection.exe t.timestamp)
      (visit_threat t) (visit_threat-pid t) refl rs h)

observed-IsDistinct :
    (events : List KernelEvent) (threats : List ThreatReport) → IsDistinct (observed events threats)
unfolding observed
observed-IsDistinct events threats =
    add_threats-IsDistinct threats _ (add_events-IsDistinct events [] tt)

-- Whether a row passes the check box "Suspicious only".
abbrev pub is_shown : Bool → ProcRow → Bool
is_shown suspicious_only row = if suspicious_only then is_suspicious row else true

keep_suspicious_lem : (b : Bool) (rs : List ProcRow) → keep_suspicious b rs ≡ filter (is_shown b) rs
keep_suspicious_lem true rs = refl
keep_suspicious_lem false rs = sym (filter-true rs)

-- The page shows exactly the rows of the table that pass the check box, the last seen first, and has
-- no two rows of one process to choose from.
pub process_rows-IsView :
    (suspicious_only : Bool) (events : List KernelEvent) (threats : List ThreatReport)
    → IsView by_last_seen
        (is_shown suspicious_only)
        (observed events threats)
        (rows suspicious_only events threats)
      × IsDistinct (observed events threats)
unfolding rows
process_rows-IsView b events threats = (
  rw (keep_suspicious_lem b (observed events threats))
      (sort_desc-filter-IsView by_last_seen (is_shown b) (observed events threats)),
  observed-IsDistinct events threats,
)
