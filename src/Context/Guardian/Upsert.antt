-- ===== src/Context/Guardian/Upsert.antt =====
-- `upsertThreat` as an update of a table of reports by id: the laws of look-up, of order and of
-- distinct ids.
use guardian_os_ai.Base.{
  ◌≡◌, refl, ◌≢◌, Bool, false, not, String, List, [], ◌∷◌, Option, some, str_eq, if◌then◌else◌,
  filter, find, count, head?, All, All-filter, arith, eq_iff, eq_refl, Bool-cases, inl, inr,
}
use guardian_os_ai.Api.Types.{ThreatReport}
use guardian_os_ai.Context.Guardian.{upsert_threat}

abbrev pub has_id : String → ThreatReport → Bool
has_id id r = str_eq r.report_id id

abbrev pub lacks_id : String → ThreatReport → Bool
lacks_id id r = not (str_eq r.report_id id)

abbrev pub find_report : String → List ThreatReport → Option ThreatReport
find_report id = find (has_id id)

-- No two reports of the list have one id.
abbrev pub IsDistinct : List ThreatReport → Type 0
IsDistinct [] = Unit
IsDistinct (r ∷ rs) = All (λ s. s.report_id ≢ r.report_id) rs × IsDistinct rs

find-filter_other :
    (id j : String) (ts : List ThreatReport)
    → str_eq j id ≡ false
    → find_report id (filter (lacks_id j) ts) ≡ find_report id ts
find-filter_other id j [] ne = refl
find-filter_other id j (t ∷ ts) ne =
    ground (
      arith,
      find-filter_other id j ts ne,
      eq_iff t.report_id j,
      eq_iff t.report_id id,
      eq_iff j id,
    )

filter-filter :
    (j : String) (ts : List ThreatReport)
    → filter (lacks_id j) (filter (lacks_id j) ts) ≡ filter (lacks_id j) ts
filter-filter j [] = refl
filter-filter j (t ∷ ts) = ground (arith, filter-filter j ts)

count-filter_own :
    (j : String) (ts : List ThreatReport) → count (has_id j) (filter (lacks_id j) ts) ≡ 0
count-filter_own j [] = refl
count-filter_own j (t ∷ ts) = ground (arith, count-filter_own j ts)

-- After an upsert the report is first and is the only one of its id; it is what its id finds, every
-- other id finds what it found before, and the reports of other ids keep their order.
pub upsert_threat_lem :
    (ts : List ThreatReport) (r : ThreatReport)
    → (head? (upsert_threat ts r) ≡ some r)
      × (count (has_id r.report_id) (upsert_threat ts r) ≡ 1)
      × ((id : String)
          → find_report id (upsert_threat ts r)
            ≡ (if str_eq r.report_id id then some r else find_report id ts))
      × (filter (lacks_id r.report_id) (upsert_threat ts r) ≡ filter (lacks_id r.report_id) ts)
unfolding upsert_threat
upsert_threat_lem ts r = (
  refl,
  ground (arith, eq_refl r.report_id, count-filter_own r.report_id ts),
  λ id. elim (Bool-cases (str_eq r.report_id id)) [
    | inl e ↦ rw e refl
    | inr e ↦ rw e (find-filter_other id r.report_id ts e)
  ],
  ground (arith, eq_refl r.report_id, filter-filter r.report_id ts),
)

IsDistinct-filter :
    (p : ThreatReport → Bool) (ts : List ThreatReport) → IsDistinct ts → IsDistinct (filter p ts)
IsDistinct-filter p [] h = tt
IsDistinct-filter p (t ∷ ts) (h, k) = elim (Bool-cases (p t)) [
  | inl e ↦ rw e (All-filter _ p ts h, IsDistinct-filter p ts k)
  | inr e ↦ rw e (IsDistinct-filter p ts k)
]

All-filter_lacks :
    (j : String) (ts : List ThreatReport) → All (λ s. s.report_id ≢ j) (filter (lacks_id j) ts)
All-filter_lacks j [] = tt
All-filter_lacks j (t ∷ ts) = elim (Bool-cases (str_eq t.report_id j)) [
  | inl e ↦ rw e (All-filter_lacks j ts)
  | inr e ↦ rw e (ground (arith, eq_iff t.report_id j), All-filter_lacks j ts)
]

pub upsert_threat-IsDistinct :
    (ts : List ThreatReport) (r : ThreatReport) → IsDistinct ts → IsDistinct (upsert_threat ts r)
unfolding upsert_threat
upsert_threat-IsDistinct ts r h = (All-filter_lacks r.report_id ts, IsDistinct-filter _ ts h)
