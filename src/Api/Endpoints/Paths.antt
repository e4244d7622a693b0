-- ===== src/Api/Endpoints/Paths.antt =====
-- The paths of the calls on one report, and a reader of them that takes no code from their printer.
use Prim.Native.Char.{Char}
use guardian_os_ai.Base.{
  ℕ, arith, ◌≡◌, refl, ap, ◌∙◌, Bool, true, false, not, ◌&&◌, String, List, [], ◌∷◌, Option, none,
  some, code, ◌==◌, ◌^^◌, str_eq, lacks, lacks-append, decimal, value_from, value-decimal,
  decimal-lacks_slash, if◌then◌else◌, Bool-cases, inl, inr,
}
use text.Mathlib.TextLemmas.{nil-append, cons-append, append_assoc}
use guardian_os_ai.Api.Endpoints.{
  Call, fetch_health, fetch_threats, fetch_threat, fetch_events, label_threat, approve_action,
  reject_action, rollback_report, call_path, report_path, action_path,
}

-- What a path asks for.
pub data Target : Type 0 where
  the_report : String → Target
  its_label : String → Target
  its_rollback : String → Target
  its_action : String → ℕ → Bool → Target

-- Puts a character before the first part.
abbrev on_first : Char → List String → List String
on_first c [] = String.◌∷◌ c "" ∷ []
on_first c (part ∷ parts) = String.◌∷◌ c part ∷ parts

-- The parts of a path between its slashes.
abbrev parts_of : String → List String
parts_of String.[] = "" ∷ []
parts_of (String.◌∷◌ c s) =
    let rest = parts_of s in if code c == b'/' then "" ∷ rest else on_first c rest

read_rest : String → List String → Option Target
read_rest id [] = some (the_report id)
read_rest id (word ∷ []) =
    if str_eq word "label"
    then some (its_label id)
    else if str_eq word "rollback"
    then some (its_rollback id)
    else none
read_rest id (word ∷ index ∷ verb ∷ []) =
    if not (str_eq word "actions")
    then none
    else if str_eq verb "approve"
    then some (its_action id (value_from 0 index) true)
    else if str_eq verb "reject"
    then some (its_action id (value_from 0 index) false)
    else none
read_rest id _ = none

read_parts : List String → Option Target
read_parts (root ∷ api ∷ threats ∷ id ∷ rest) =
    if str_eq root "" && str_eq api "api" && str_eq threats "threats"
    then read_rest id rest
    else none
read_parts _ = none

pub read_path : String → Option Target
unfolding read_parts read_rest
read_path path = read_parts (parts_of path)

parts_of-slash : (s : String) → parts_of ("/" ^^ s) ≡ "" ∷ parts_of s
parts_of-slash s = rw (cons-append "/" "" s, nil-append s) refl

-- A text without a slash is one part of the path that it begins, and of the path that it is.
parts_of-word : (w s : String) → lacks b'/' w ≡ true → parts_of (w ^^ ("/" ^^ s)) ≡ w ∷ parts_of s
parts_of-word String.[] s h = rw (nil-append ("/" ^^ s)) (parts_of-slash s)
parts_of-word (String.◌∷◌ c w) s h = elim (Bool-cases (code c == b'/')) [
  | inl slash ↦ ground (arith, slash, h)
  | inr other ↦
      rw (cons-append c w ("/" ^^ s), other, parts_of-word w s (ground (arith, other, h))) refl
]

parts_of-last : (w : String) → lacks b'/' w ≡ true → parts_of w ≡ w ∷ []
parts_of-last String.[] h = refl
parts_of-last (String.◌∷◌ c w) h = elim (Bool-cases (code c == b'/')) [
  | inl slash ↦ ground (arith, slash, h)
  | inr other ↦ rw (other, parts_of-last w (ground (arith, other, h))) refl
]

-- The reader's way through a path whose first part is known.
parts_of-begins :
    (w r s : String)
    → lacks b'/' w ≡ true
    → parts_of ((w ^^ ("/" ^^ r)) ^^ s) ≡ w ∷ parts_of (r ^^ s)
parts_of-begins w r s h =
    ap parts_of (append_assoc w ("/" ^^ r) s ∙ ap (λ t. w ^^ t) (append_assoc "/" r s))
    ∙ parts_of-word w (r ^^ s) h

abbrev below : List String → List String
below parts = "" ∷ "api" ∷ "threats" ∷ parts

parts_of-report : (s : String) → parts_of (report_path s) ≡ below (parts_of s)
parts_of-report s =
    parts_of-begins "" "api/threats/" s refl
    ∙ ap (λ ps. "" ∷ ps)
        (parts_of-begins "api" "threats/" s refl
          ∙ ap (λ ps. "api" ∷ ps)
              (parts_of-begins "threats" "" s refl
                ∙ ap (λ t. "threats" ∷ parts_of t) (nil-append s)))

parts_of-deeper :
    (id s : String)
    → lacks b'/' id ≡ true
    → parts_of (report_path id ^^ ("/" ^^ s)) ≡ below (id ∷ parts_of s)
parts_of-deeper id s h =
    ap parts_of (append_assoc "/api/threats/" id ("/" ^^ s))
    ∙ (parts_of-report (id ^^ ("/" ^^ s)) ∙ ap below (parts_of-word id s h))

parts_of-action :
    (id : String) (i : ℕ) (verb : String)
    → lacks b'/' id ≡ true
    → lacks b'/' verb ≡ true
    → parts_of (action_path id i verb) ≡ below (id ∷ "actions" ∷ decimal i ∷ verb ∷ [])
parts_of-action id i verb h k =
    let rest = decimal i ^^ ("/" ^^ verb) in
    ap (λ t. parts_of (report_path id ^^ t)) (append_assoc "/" "actions/" rest)
    ∙ (parts_of-deeper id ("actions/" ^^ rest) h
        ∙ ap (λ ps. below (id ∷ ps))
            (parts_of-begins "actions" "" rest refl
              ∙ ap (λ ps. "actions" ∷ ps)
                  (ap parts_of (nil-append rest)
                    ∙ (parts_of-word (decimal i) verb (decimal-lacks_slash i)
                        ∙ ap (λ ps. decimal i ∷ ps) (parts_of-last verb k)))))

parts_of-list :
    (name : String) (limit : ℕ)
    → lacks b'/' name ≡ true
    → parts_of ("/api/" ^^ (name ^^ decimal limit)) ≡ "" ∷ "api" ∷ (name ^^ decimal limit) ∷ []
parts_of-list name limit h =
    let last = name ^^ decimal limit in
    parts_of-begins "" "api/" last refl
    ∙ ap (λ ps. "" ∷ ps)
        (parts_of-begins "api" "" last refl
          ∙ ap (λ ps. "api" ∷ ps)
              (ap parts_of (nil-append last)
                ∙ parts_of-last last (
                    rw (lacks-append b'/' name (decimal limit), h, decimal-lacks_slash limit)
                      refl)))

-- The call, its report and what it asks for; none for a call that is not on one report.
abbrev pub target_of : Call → Option Target
target_of (fetch_threat id) = some (the_report id)
target_of (label_threat id body) = some (its_label id)
target_of (approve_action id i) = some (its_action id i true)
target_of (reject_action id i) = some (its_action id i false)
target_of (rollback_report id) = some (its_rollback id)
target_of _ = none

abbrev pub report_of : Call → String
report_of (fetch_threat id) = id
report_of (label_threat id body) = id
report_of (approve_action id i) = id
report_of (reject_action id i) = id
report_of (rollback_report id) = id
report_of _ = ""

-- The path of a call reads back as what the call asks for, with its report and the number of its action,
-- if the report's id has no slash. So calls that ask for different things of a report have different
-- paths. The calls for health and for the lists read back as no call on one report.
pub read_path-call_path :
    (c : Call) → lacks b'/' (report_of c) ≡ true → read_path (call_path c) ≡ target_of c
unfolding read_path call_path read_parts read_rest
read_path-call_path fetch_health h = refl
read_path-call_path (fetch_threats limit) h =
    rw
      (
        append_assoc "/api/" "threats?limit=" (decimal limit),
        parts_of-list "threats?limit=" limit refl,
      )
      refl
read_path-call_path (fetch_threat id) h = rw (parts_of-report id, parts_of-last id h) refl
read_path-call_path (fetch_events limit) h =
    rw
      (
        append_assoc "/api/" "events?limit=" (decimal limit),
        parts_of-list "events?limit=" limit refl,
      )
      refl
read_path-call_path (label_threat id body) h = rw (parts_of-deeper id "label" h) refl
read_path-call_path (approve_action id i) h =
    rw (parts_of-action id i "approve" h refl, value-decimal i) refl
read_path-call_path (reject_action id i) h =
    rw (parts_of-action id i "reject" h refl, value-decimal i) refl
read_path-call_path (rollback_report id) h = rw (parts_of-deeper id "rollback" h) refl
