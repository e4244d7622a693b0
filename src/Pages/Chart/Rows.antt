-- ===== src/Pages/Chart/Rows.antt =====
-- The rows of counts, and what counting a report does to them.
use guardian_os_ai.Base.{
  ℕ, zero, suc, ◌+◌, ◌<◌, ◌≡◌, ◌≢◌, refl, ap, ◌∙◌, List, [], ◌∷◌, Option, none, some, length,
  if◌then◌else◌, All, arith,
}
use guardian_os_ai.Api.Types.{Severity, info, severity_eq}
use guardian_os_ai.Pages.Chart.{index_of, increment, increment_at, add_at}

abbrev pub sum : List ℕ → ℕ
sum [] = 0
sum (n ∷ ns) = n + sum ns

-- The row of a severity among the rows in the order of `severities`.
abbrev pub row_total : ℕ → List (List ℕ) → ℕ
row_total k [] = 0
row_total zero (row ∷ rows) = sum row
row_total (suc k) (row ∷ rows) = row_total k rows

pub length-increment : (i : ℕ) (ns : List ℕ) → length (increment i ns) ≡ length ns
length-increment i [] = refl
length-increment zero (n ∷ ns) = refl
length-increment (suc i) (n ∷ ns) = ap suc (length-increment i ns)

pub sum-increment : (i : ℕ) (ns : List ℕ) → i < length ns → sum (increment i ns) ≡ sum ns + 1
sum-increment i [] h = elim h [ ]
sum-increment zero (n ∷ ns) h = omega arith
sum-increment (suc i) (n ∷ ns) h = omega (arith, sum-increment i ns)

abbrev pub HasWidth : ℕ → List ℕ → Type 0
HasWidth b row = length row ≡ b

pub increment_at-HasWidth :
    (b sev i : ℕ) (rows : List (List ℕ))
    → All (HasWidth b) rows
    → All (HasWidth b) (increment_at sev i rows)
increment_at-HasWidth b sev i [] h = tt
increment_at-HasWidth b zero i (row ∷ rows) (h, k) = (length-increment i row ∙ h, k)
increment_at-HasWidth b (suc sev) i (row ∷ rows) (h, k) = (h, increment_at-HasWidth b sev i rows k)

pub length-increment_at :
    (sev i : ℕ) (rows : List (List ℕ)) → length (increment_at sev i rows) ≡ length rows
length-increment_at sev i [] = refl
length-increment_at zero i (row ∷ rows) = refl
length-increment_at (suc sev) i (row ∷ rows) = ap suc (length-increment_at sev i rows)

pub row_total-increment_at_self :
    (b sev i : ℕ) (rows : List (List ℕ))
    → All (HasWidth b) rows
    → i < b
    → sev < length rows
    → row_total sev (increment_at sev i rows) ≡ row_total sev rows + 1
row_total-increment_at_self b sev i [] h lt s = elim s [ ]
row_total-increment_at_self b zero i (row ∷ rows) (h, k) lt s = sum-increment i row (omega arith)
row_total-increment_at_self b (suc sev) i (row ∷ rows) (h, k) lt s =
    row_total-increment_at_self b sev i rows k lt (omega arith)

pub row_total-increment_at_other :
    (sev k i : ℕ) (rows : List (List ℕ))
    → sev ≢ k
    → row_total k (increment_at sev i rows) ≡ row_total k rows
row_total-increment_at_other sev k i [] ne = refl
row_total-increment_at_other zero zero i (row ∷ rows) ne = absurd (ne refl)
row_total-increment_at_other zero (suc k) i (row ∷ rows) ne = refl
row_total-increment_at_other (suc sev) zero i (row ∷ rows) ne = refl
row_total-increment_at_other (suc sev) (suc k) i (row ∷ rows) ne =
    row_total-increment_at_other sev k i rows (λ e. ne (ap suc e))

-- Rows of one width, one for each severity that is drawn.
abbrev pub IsGrid : ℕ → List (List ℕ) → Type 0
IsGrid b rows = All (HasWidth b) rows × (length rows ≡ 4)

pub add_at-IsGrid :
    (b i : ℕ) (o : Option ℕ) (rows : List (List ℕ)) → IsGrid b rows → IsGrid b (add_at o i rows)
add_at-IsGrid b i none rows h = h
add_at-IsGrid b i (some sev) rows (h, n) =
    (increment_at-HasWidth b sev i rows h, length-increment_at sev i rows ∙ n)

pub row_total-add_at :
    (b i k : ℕ) (s s' : Severity) (rows : List (List ℕ))
    → IsGrid b rows
    → i < b
    → index_of s ≡ some k
    → row_total k (add_at (index_of s') i rows)
      ≡ row_total k rows + (if severity_eq s' s then 1 else 0)
unfolding severity_eq
row_total-add_at b i k s info rows g lt e = ground arith
row_total-add_at b i k s s' rows g lt e = ground (
  arith,
  row_total-increment_at_self b k i rows g.0 lt,
  row_total-increment_at_other 0 k i rows,
  row_total-increment_at_other 1 k i rows,
  row_total-increment_at_other 2 k i rows,
  row_total-increment_at_other 3 k i rows,
)
