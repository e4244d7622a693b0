-- ===== src/Api/Client/Answers.antt =====
-- frontend/src/api/client.ts: a result of `request` against the answer that it was read from.
use mathlib.Core.Path.{subst}
use guardian_os_ai.Base.{
  ℕ, ◌≡◌, refl, ◌≢◌, ◌≤◌, ◌↔◌, ◌⊎◌, inr, true, String, none, some, arith, eq_iff, decimal, sym, ap,
  ◌∙◌, Bool-cases, Option-cases, inl, ◌^^◌,
}
use guardian_os_ai.Platform.{Platform, Storage}
use guardian_os_ai.Api.Types.{Json, Fields, end, field, obj, str}
use guardian_os_ai.Api.Client.{
  Outcome, ok, err, api_error, syntax_error, Init, Sent, Response, Reply, unreachable, replied,
  is_ok, build_request, error_detail, request, read_reply, read_body, Failure, string_or, member,
  Body, parsed, unparsed, broken_off, broken_body,
}

-- The last member of the name in the fields has the value.
abbrev pub Lacks : String → Fields → Type 0
Lacks k end = Unit {0}
Lacks k (field j v fs) = (j ≢ k) × Lacks k fs

abbrev pub EndsWith : String → Json → Fields → Type 0
EndsWith k v end = ⊥
EndsWith k v (field j w fs) = EndsWith k v fs ⊎ ((j ≡ k) × (w ≡ v) × Lacks k fs)

member-none : (k : String) (fs : Fields) → (member k fs ≡ none) ↔ Lacks k fs
unfolding member
member-none k end = (λ e. tt, λ h. refl)
member-none k (field j v fs) =
    ground (arith, (member-none k fs).0, (member-none k fs).1, eq_iff j k)

member-some : (k : String) (v : Json) (fs : Fields) → (member k fs ≡ some v) ↔ EndsWith k v fs
unfolding member
member-some k v end = (λ e. cc, λ h. elim h [ ])
member-some k v (field j w fs) = ground (
  arith,
  (member-some k v fs).0,
  (member-some k v fs).1,
  (member-none k fs).0,
  (member-none k fs).1,
  eq_iff j k,
)

-- The text of the error that an answer with the status and the body leads to: the member `detail` of the
-- body, if the body is an object that has one, the last of them if there are several, and it is a string,
-- and "HTTP" with the status otherwise.
abbrev pub HasDetail : Body → String → Type 0
HasDetail (parsed (obj fs)) s = EndsWith "detail" (str s) fs
HasDetail _ s = ⊥

abbrev pub IsDetail : ℕ → Body → String → Type 0
IsDetail status body message =
    HasDetail body message
    ⊎ (((s : String) → ¬ HasDetail body s) × (message ≡ "HTTP " ^^ decimal status))

-- A status from 200 to 299.
abbrev pub IsSuccess : Response → Type 0
IsSuccess r = (200 ≤ r.status) × (r.status ≤ 299)

-- What a result says of the answer that it was read from.
pub record Reflects (P : Platform) (reply : Reply) (result : Outcome Json) : Type 0 where
  pub value :
      (v : Json)
      → (result ≡ ok v) ↔ ((r : Response) × (reply ≡ replied r) × IsSuccess r × (r.body ≡ parsed v))
  pub no_json :
      (result ≡ err syntax_error)
      ↔ ((r : Response) × (reply ≡ replied r) × IsSuccess r × (r.body ≡ unparsed))
  pub broken :
      (result ≡ err broken_body)
      ↔ ((r : Response) × (reply ≡ replied r) × IsSuccess r × (r.body ≡ broken_off))
  pub refused :
      (status : ℕ) (message : String)
      → (result ≡ err (api_error status message)) ↔ (
          (reply ≡ unreachable)
            × (status ≡ 0)
            × (message ≡ "Cannot reach the GuardianOS-AI server at " ^^ P.origin)
          ⊎ ((r : Response) × (reply ≡ replied r)
              × (¬ IsSuccess r)
              × (r.status ≡ status)
              × IsDetail status r.body message))

is_ok_iff : (r : Response) → (is_ok r ≡ true) ↔ IsSuccess r
unfolding is_ok
is_ok_iff r = ground arith

default-IsDetail :
    (status : ℕ) (body : Body) (message : String)
    → ((s : String) → ¬ HasDetail body s)
    → ("HTTP " ^^ decimal status ≡ message) ↔ IsDetail status body message
default-IsDetail status body message lacks = (
  λ e. inr (lacks, sym e),
  λ h. elim h [ inl has ↦ absurd (lacks message has) | inr (lacks', e) ↦ sym e ],
)

-- The body is an object whose member is `v`.
member-IsDetail_iff :
    (status : ℕ) (fs : Fields) (message : String) (v : Json)
    → member "detail" fs ≡ some v
    → (string_or ("HTTP " ^^ decimal status) (some v) ≡ message)
      ↔ IsDetail status (parsed (obj fs)) message
member-IsDetail_iff status fs message (str s) e = (
  λ same. inl ((member-some "detail" (str message) fs).0 (e ∙ ap (λ t. some (str t)) same)),
  λ h. elim h [
    | inl has ↦ let found = (member-some "detail" (str message) fs).1 has in cc
    | inr (lacks, e') ↦ absurd (lacks s ((member-some "detail" (str s) fs).0 e))
  ],
)
member-IsDetail_iff status fs message v e =
    default-IsDetail status (parsed (obj fs)) message
      (λ s has. let found = (member-some "detail" (str s) fs).1 has in cc)

error_detail-IsDetail :
    (status : ℕ) (body : Body) (message : String)
    → (error_detail ("HTTP " ^^ decimal status) body ≡ message) ↔ IsDetail status body message
unfolding error_detail
error_detail-IsDetail status (parsed (obj fs)) message = elim (Option-cases (member "detail" fs)) [
  | inl e ↦ rw e (
      default-IsDetail status (parsed (obj fs)) message
        (λ s has. let found = (member-some "detail" (str s) fs).1 has in cc))
  | inr (v, e) ↦ rw e (member-IsDetail_iff status fs message v e)
]
error_detail-IsDetail status body message = default-IsDetail status body message (λ s h. h)

-- The answers of one reply are one answer.
at_reply : (Q : Response → Type 0) (r x : Response) → replied r ≡ replied x → Q r → Q x
at_reply Q r x same h = let here : r ≡ x = cc in subst Q here h

read_body-ok : (b : Body) (v : Json) → (read_body b ≡ ok v) ↔ (b ≡ parsed v)
read_body-ok (parsed w) v = (λ e. cc, λ e. cc)
read_body-ok unparsed v = (λ e. cc, λ e. cc)
read_body-ok broken_off v = (λ e. cc, λ e. cc)

read_body-err :
    (b : Body) (f : Failure)
    → (read_body b ≡ err f)
      ↔ ((b ≡ unparsed) × (f ≡ syntax_error) ⊎ ((b ≡ broken_off) × (f ≡ broken_body)))
read_body-err (parsed w) f = ground arith
read_body-err unparsed f = ground arith
read_body-err broken_off f = ground arith

succeeded-Reflects :
    (P : Platform) (r : Response) → IsSuccess r → Reflects P (replied r) (read_body r.body)
succeeded-Reflects P r good = record {
  value = λ v. (
    λ e. (r, refl, good, (read_body-ok r.body v).0 e),
    λ (x, same, success, has). (read_body-ok r.body v).1 (cc),
  );
  no_json = (
    λ e. (r, refl, good, ground (arith, (read_body-err r.body syntax_error).0 e)),
    λ (x, same, success, has). (read_body-err r.body syntax_error).1 (inl (cc, refl)),
  );
  broken = (
    λ e. (r, refl, good, ground (arith, (read_body-err r.body broken_body).0 e)),
    λ (x, same, success, has). (read_body-err r.body broken_body).1 (inr (cc, refl)),
  );
  refused = λ status message. (
    λ e. ground (arith, (read_body-err r.body (api_error status message)).0 e),
    λ h. elim h [
      | inl (far, at_zero, text_far) ↦ cc
      | inr (x, same, failed, at, text) ↦ absurd (failed (at_reply IsSuccess r x same good))
    ],
  );
}

failed-Reflects :
    (P : Platform) (r : Response)
    → ¬ IsSuccess r
    → Reflects P
        (replied r)
        (err (api_error r.status (error_detail ("HTTP " ^^ decimal r.status) r.body)))
failed-Reflects P r bad =
    let elsewhere : (x : Response) → replied r ≡ replied x → ¬ IsSuccess x =
      λ x same success. bad (at_reply IsSuccess x r (sym same) success) in
    record {
      value = λ v. (λ e. cc, λ (x, same, success, has). absurd (elsewhere x same success));
      no_json = (λ e. cc, λ (x, same, success, has). absurd (elsewhere x same success));
      broken = (λ e. cc, λ (x, same, success, has). absurd (elsewhere x same success));
      refused = λ status message. (
        λ e.
            let at : r.status ≡ status = cc in
            let text : error_detail ("HTTP " ^^ decimal status) r.body ≡ message = cc in
            inr (r, refl, bad, at, (error_detail-IsDetail status r.body message).0 text),
        λ h. elim h [
          | inl (far, at_zero, text_far) ↦ cc
          | inr (x, same, failed, at, text) ↦
              let detail = (error_detail-IsDetail status x.body message).1 text in cc
        ],
      );
    }

read_reply-Reflects : (P : Platform) (reply : Reply) → Reflects P reply (read_reply P reply)
read_reply-Reflects P unreachable = record {
  value = ground arith;
  no_json = ground arith;
  broken = ground arith;
  refused = ground arith;
}
read_reply-Reflects P (replied r) = elim (Bool-cases (is_ok r)) [
  | inl good ↦ rw good (succeeded-Reflects P r ((is_ok_iff r).0 good))
  | inr bad ↦ rw bad (failed-Reflects P r (λ h. let e = (is_ok_iff r).1 h in cc))
]

-- A value comes exactly from an answer with a status from 200 to 299 whose body is JSON, and is that body. A
-- `SyntaxError` comes exactly from such a status with a body that is no JSON, and the error of a body that
-- breaks off exactly from such a body. An `ApiError` comes exactly when no answer came, with status 0 and a
-- text that names the origin, or from an answer with another status: with this status, and as its text the
-- member `detail` of the body if the body is an object that has one and it is a string, and "HTTP" with the
-- status otherwise.
pub request-Reflects :
    (P : Platform) (store : Storage) (fetch : Sent → Reply) (path : String) (init : Init)
    → Reflects P (fetch (build_request store path init)) (request P store fetch path init)
unfolding request
request-Reflects P store fetch path init =
    read_reply-Reflects P (fetch (build_request store path init))
