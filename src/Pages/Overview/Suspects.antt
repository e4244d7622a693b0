-- ===== src/Pages/Overview/Suspects.antt =====
-- The list of suspicious processes against the reports.
use guardian_os_ai.Base.{
  ℕ, zero, suc, ◌≡◌, ◌≢◌, false, List, [], ◌∷◌, ◌++◌, any, take, All, ◌==◌, arith, Bool-cases, inl,
  inr,
}
use guardian_os_ai.Api.Types.{ThreatReport}
use guardian_os_ai.Pages.Overview.{Suspect, suspect_of, collect}

abbrev pub IsDistinct : List Suspect → Type 0
IsDistinct [] = Unit
IsDistinct (s ∷ ss) = All (λ r. r.pid ≢ s.pid) ss × IsDistinct ss

All-append_one :
    (q : ℕ) (x : Suspect) (xs : List Suspect)
    → x.pid ≢ q
    → All (λ r. r.pid ≢ q) xs
    → All (λ r. r.pid ≢ q) (xs ++ x ∷ [])
All-append_one q x [] h k = (h, tt)
All-append_one q x (y ∷ ys) h (p, k) = (p, All-append_one q x ys h k)

IsDistinct-append_one :
    (x : Suspect) (xs : List Suspect)
    → any (λ s. s.pid == x.pid) xs ≡ false
    → IsDistinct xs
    → IsDistinct (xs ++ x ∷ [])
IsDistinct-append_one x [] n h = (tt, tt)
IsDistinct-append_one x (y ∷ ys) n (h, k) =
    (All-append_one y.pid x ys (ground arith) h, IsDistinct-append_one x ys (ground arith) k)

pub collect-IsDistinct :
    (ts : List ThreatReport) (seen : List Suspect) → IsDistinct seen → IsDistinct (collect ts seen)
unfolding collect
collect-IsDistinct [] seen h = h
collect-IsDistinct (t ∷ ts) seen h = elim (Bool-cases (any (λ s. s.pid == t.detection.pid) seen)) [
  | inl e ↦ rw e (collect-IsDistinct ts seen h)
  | inr e ↦ rw e (collect-IsDistinct ts _ (IsDistinct-append_one (suspect_of t) seen e h))
]

All-take :
    (q n : ℕ) (xs : List Suspect) → All (λ r. r.pid ≢ q) xs → All (λ r. r.pid ≢ q) (take n xs)
All-take q zero xs h = tt
All-take q (suc n) [] h = tt
All-take q (suc n) (x ∷ xs) (h, k) = (h, All-take q n xs k)

pub IsDistinct-take : (n : ℕ) (xs : List Suspect) → IsDistinct xs → IsDistinct (take n xs)
IsDistinct-take zero xs h = tt
IsDistinct-take (suc n) [] h = tt
IsDistinct-take (suc n) (x ∷ xs) (h, k) = (All-take x.pid n xs h, IsDistinct-take n xs k)
