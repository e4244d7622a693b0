-- ===== src/Pages/Overview/Firsts.antt =====
-- The list of suspicious processes as the first reports of the processes.
use guardian_os_ai.Base.{
  ℕ, ◌≤◌, ◌≡◌, refl, sym, ap, ◌∙◌, Bool, true, not, ◌||◌, List, [], ◌∷◌, ◌++◌, any, filter, take,
  length, length-take-le, append_assoc, append-nil, filter-true, ◌==◌, ==_iff, arith, inl, inr,
  Bool-cases,
}
use guardian_os_ai.Api.Types.{ThreatReport}
use guardian_os_ai.Pages.Overview.{Suspect, suspect_of, collect, suspicious_processes}
use guardian_os_ai.Pages.Overview.Suspects.{IsDistinct, IsDistinct-take, collect-IsDistinct}

abbrev pub is_other : ℕ → Suspect → Bool
is_other pid s = not (s.pid == pid)

-- The first report of each process, in the order of the reports.
abbrev pub firsts : List ThreatReport → List Suspect
firsts [] = []
firsts (t ∷ ts) = suspect_of t ∷ filter (is_other t.detection.pid) (firsts ts)

abbrev is_new : List Suspect → Suspect → Bool
is_new seen s = not (any (λ x. x.pid == s.pid) seen)

filter-known :
    (pid : ℕ) (seen : List Suspect)
    → any (λ x. x.pid == pid) seen ≡ true
    → (xs : List Suspect)
    → filter (is_new seen) (filter (is_other pid) xs) ≡ filter (is_new seen) xs
filter-known pid seen known [] = refl
filter-known pid seen known (s ∷ xs) = elim (Bool-cases (s.pid == pid)) [
  | inl e ↦
      let same : any (λ x. x.pid == s.pid) seen ≡ true = rw ((==_iff s.pid pid).0 e) known in
      rw (e, same) (filter-known pid seen known xs)
  | inr e ↦ rw e (ground (arith, filter-known pid seen known xs))
]

any-append_one :
    (p : Suspect → Bool) (xs : List Suspect) (y : Suspect)
    → any p (xs ++ y ∷ []) ≡ (any p xs || p y)
any-append_one p [] y = ground arith
any-append_one p (x ∷ xs) y = ground (arith, any-append_one p xs y)

filter-unknown :
    (y : Suspect) (seen xs : List Suspect)
    → filter (is_new (seen ++ y ∷ [])) xs ≡ filter (is_new seen) (filter (is_other y.pid) xs)
filter-unknown y seen [] = refl
filter-unknown y seen (s ∷ xs) =
    rw (any-append_one (λ x. x.pid == s.pid) seen y) (ground (arith, filter-unknown y seen xs))

collect-firsts :
    (ts : List ThreatReport) (seen : List Suspect)
    → collect ts seen ≡ seen ++ filter (is_new seen) (firsts ts)
unfolding collect
collect-firsts [] seen = sym (append-nil seen)
collect-firsts (t ∷ ts) seen = elim (Bool-cases (any (λ s. s.pid == t.detection.pid) seen)) [
  | inl e ↦ rw e (
      collect-firsts ts seen
      ∙ ap (λ rest. seen ++ rest) (sym (filter-known t.detection.pid seen e (firsts ts))))
  | inr e ↦ rw e (
      collect-firsts ts (seen ++ suspect_of t ∷ [])
      ∙ rw (filter-unknown (suspect_of t) seen (firsts ts))
          (append_assoc seen (suspect_of t ∷ []) _))
]

-- The page lists the first report of each process, in the order of the reports, for at most eight
-- processes, no process twice.
pub suspicious_processes_lem :
    (threats : List ThreatReport)
    → (suspicious_processes threats ≡ take 8 (firsts threats))
      × (length (suspicious_processes threats) ≤ 8)
      × IsDistinct (suspicious_processes threats)
unfolding suspicious_processes
suspicious_processes_lem threats = (
  ap (take 8) (collect-firsts threats [] ∙ filter-true (firsts threats)),
  length-take-le {0} 8 (collect threats []),
  IsDistinct-take 8 (collect threats []) (collect-IsDistinct threats [] tt),
)
