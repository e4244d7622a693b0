-- ===== src/App/Conserved.antt =====
-- The requests for a change against the clicks: none is lost, doubled or invented on the way.
use guardian_os_ai.Base.{
  ℕ, ◌+◌, ◌≡◌, refl, arith, ap, ◌∙◌, sym, Bool, false, String, List, [], ◌∷◌, ◌++◌, Option, none,
  some, str_eq, if◌then◌else◌, count, count-append, Any, ◌^^◌, decimal, append-nil, append_assoc,
}
use guardian_os_ai.Platform.{Platform}
use guardian_os_ai.Api.Types.{benign, malicious, obj, field, end, str, FrameItem, verdict_name}
use guardian_os_ai.Api.Endpoints.{Call, call_path, call_init, label_body}
use guardian_os_ai.Api.Client.{json_init, get_init}
use guardian_os_ai.Context.Guardian.{
  Guardian, refresh, on_frame, run_items, run_item, item_action, ItemAction, shows_report,
  patches_health, ignored, Timer, tick, health_timer, events_timer, label_report, approve, reject,
  rollback,
}
use guardian_os_ai.Context.Guardian.Requests
use guardian_os_ai.Context.Guardian.Requests.{
  World, Answer, IsHonest, settle, settle-issues, issue, start, refreshes, ticks, frames, reports,
  asks, answers,
}
use guardian_os_ai.Context.Sidebar.{Sidebar}
use guardian_os_ai.View.Dom.{
  Intent, refresh_all, ask_approve, ask_reject, ask_rollback, ask_label, clicks,
}
use guardian_os_ai.App.{Router, Local, screen}
use guardian_os_ai.App.Client.{perform}

-- A POST as the server gets it.
pub record Post : Type 0 where
  pub path : String
  pub body : Option String

abbrev is_post : Option String → Bool
is_post none = false
is_post (some method) = str_eq method "POST"

module _ (P : Platform) where
  -- The POST that a call becomes, if its method is POST.
  abbrev pub posts : Call → List Post
  posts c =
      if is_post (call_init P c).method
      then record { path = call_path c; body = (call_init P c).body } ∷ []
      else []

  abbrev pub posts_of : List Call → List Post
  posts_of [] = []
  posts_of (c ∷ cs) = posts c ++ posts_of cs

  -- What a click means to ask of the server.
  abbrev pub wanted : Intent → List Post
  wanted (ask_approve id i) =
      record {
        path = ("/api/threats/" ^^ id) ^^ "/actions/" ^^ decimal i ^^ "/approve";
        body = none;
      }
      ∷ []
  wanted (ask_reject id i) =
      record {
        path = ("/api/threats/" ^^ id) ^^ "/actions/" ^^ decimal i ^^ "/reject";
        body = none;
      }
      ∷ []
  wanted (ask_rollback id) =
      record { path = ("/api/threats/" ^^ id) ^^ "/rollback"; body = none } ∷ []
  wanted (ask_label id benign) =
      record {
        path = ("/api/threats/" ^^ id) ^^ "/label";
        body = some (P.stringify (obj (field "verdict" (str "benign") end)));
      }
      ∷ []
  wanted (ask_label id malicious) =
      record {
        path = ("/api/threats/" ^^ id) ^^ "/label";
        body = some (P.stringify (obj (field "verdict" (str "malicious") end)));
      }
      ∷ []
  wanted _ = []

  abbrev pub wanted_by : List Intent → List Post
  wanted_by [] = []
  wanted_by (x ∷ xs) = wanted x ++ wanted_by xs

  posts_of-append : (cs ds : List Call) → posts_of (cs ++ ds) ≡ posts_of cs ++ posts_of ds
  posts_of-append [] ds = refl
  posts_of-append (c ∷ cs) ds =
      ap (λ ps. posts c ++ ps) (posts_of-append cs ds)
      ∙ sym (append_assoc (posts c) (posts_of cs) (posts_of ds))

  perform-posts : (x : Intent) (g : Guardian) → posts_of (perform x g).1 ≡ wanted x
  unfolding perform approve reject rollback label_report refresh call_init call_path json_init
      get_init label_body verdict_name
  perform-posts (ask_approve id i) g = refl
  perform-posts (ask_reject id i) g = refl
  perform-posts (ask_rollback id) g = refl
  perform-posts (ask_label id benign) g = refl
  perform-posts (ask_label id malicious) g = refl
  perform-posts refresh_all g = refl
  perform-posts _ g = refl

  run_item-posts : (a : ItemAction) (g : Guardian) → posts_of (run_item a g).1 ≡ []
  unfolding run_item call_init get_init
  run_item-posts (shows_report r) g = refl
  run_item-posts (patches_health p) g = refl
  run_item-posts ignored g = refl

  run_items-posts : (items : List FrameItem) (g : Guardian) → posts_of (run_items items g).1 ≡ []
  unfolding run_items
  run_items-posts [] g = refl
  run_items-posts (item ∷ items) g =
      posts_of-append (run_item (item_action item) g).1 _
      ∙ rw (run_item-posts (item_action item) g) (run_items-posts items _)

  tick-posts : (t : Timer) → posts_of (tick t) ≡ []
  unfolding tick call_init get_init
  tick-posts health_timer = refl
  tick-posts events_timer = refl

-- What happens without a click and without an answer.
abbrev pub IsQuiet : {w w' : World} → Requests.Step w w' → Type 0
IsQuiet (asks w c m) = ⊥
IsQuiet (answers w before later c a e honest) = ⊥
IsQuiet _ = Unit {0}

-- A run of the client from its opening, with the clicks and the calls that were answered, the last ones
-- first.
pub data Run (R : Router) (P : Platform) : List Intent → List Call → World → Type 0 where
  opened : Run R P [] [] start
  clicked :
      {xs : List Intent} {cs : List Call} {w : World}
      → Run R P xs cs w
      → (now : ℕ) (s : Sidebar) (l : Local) (path : String) (x : Intent)
      → Any (λ y. y ≡ x) (clicks (screen R P now w.guardian s l path))
      → Run R P (x ∷ xs) cs (issue (perform x w.guardian) w)
  happened :
      {xs : List Intent} {cs : List Call} {w w' : World}
      → Run R P xs cs w
      → (st : Requests.Step w w') → IsQuiet st
      → Run R P xs cs w'
  answered :
      {xs : List Intent} {cs : List Call} {w : World}
      → Run R P xs cs w
      → (before later : List Call) (c : Call) (a : Answer) → w.in_flight ≡ before ++ c ∷ later
      → IsHonest a
      → Run R P xs
          (c ∷ cs)
          (issue (settle c a w.guardian) (record w { in_flight = before ++ later }))

module _ (P : Platform) (q : Post → Bool) where
  -- How many POSTs of the kind `q` some calls become.
  abbrev tally : List Call → ℕ
  tally cs = count q (posts_of P cs)

  tally-append : (cs ds : List Call) → tally (cs ++ ds) ≡ tally cs + tally ds
  tally-append cs ds = rw (posts_of-append P cs ds) (count-append q (posts_of P cs) (posts_of P ds))

  tally-cons : (c : Call) (cs : List Call) → tally (c ∷ cs) ≡ count q (posts P c) + tally cs
  tally-cons c cs = count-append q (posts P c) (posts_of P cs)

  tally-silent : (cs ds : List Call) → posts_of P ds ≡ [] → tally (cs ++ ds) ≡ tally cs
  tally-silent cs ds e = tally-append cs ds ∙ rw e (omega arith)

  happened-tally :
      {w w' : World} (st : Requests.Step w w') → IsQuiet st → tally w'.in_flight ≡ tally w.in_flight
  unfolding refresh on_frame call_init get_init
  happened-tally (refreshes w) h = tally-silent w.in_flight _ refl
  happened-tally (ticks w t) h = tally-silent w.in_flight (tick t) (tick-posts P t)
  happened-tally (frames w f) h = tally-silent w.in_flight _ (run_items-posts P f.items w.guardian)
  happened-tally (reports w b) h = tally-silent w.in_flight [] refl
  happened-tally (asks w c m) h = elim h [ ]
  happened-tally (answers w before later c a e honest) h = elim h [ ]

  -- An answer takes the POSTs of its call from those in flight.
  answered-tally :
      (w : World) (before later : List Call) (c : Call) (a : Answer)
      → w.in_flight ≡ before ++ c ∷ later
      → tally w.in_flight
        ≡ tally (issue (settle c a w.guardian) (record w { in_flight = before ++ later })).in_flight
          + count q (posts P c)
  answered-tally w before later c a e =
      rw (e, settle-issues c a w.guardian, append-nil (before ++ later))
        (omega
          (arith, tally-append before (c ∷ later), tally-append before later, tally-cons c later))

-- Whatever is clicked, polled, pushed and answered, in any order: of each kind of POST, as many were
-- wanted by the clicks so far as are in flight or have been answered. So no click is lost or sent twice,
-- and nothing but a click asks the server for a change. A click on "approve" wants a POST without a body to
-- the path of this action that ends in "approve", one on "reject" to the one that ends in "reject", one on
-- the rollback to that of the report, and one on a verdict a POST that has just the verdict as its body.
pub clicks_conserved :
    {R : Router} {P : Platform} {xs : List Intent} {cs : List Call} {w : World}
    → Run R P xs cs w
    → (q : Post → Bool)
    → count q (wanted_by P xs) ≡ count q (posts_of P w.in_flight) + count q (posts_of P cs)
unfolding refresh call_init get_init
clicks_conserved opened q = refl
clicks_conserved {R} {P} (clicked {xs} {cs} {w} run now s l path x h) q =
    rw
      (
        count-append q (wanted P x) (wanted_by P xs),
        tally-append P q w.in_flight (perform x w.guardian).1,
        perform-posts P x w.guardian,
      )
      (omega (arith, clicks_conserved run q))
clicks_conserved {R} {P} (happened run st quiet) q =
    rw (happened-tally P q st quiet) (clicks_conserved run q)
clicks_conserved {R} {P} (answered {xs} {cs} {w} run before later c a e honest) q =
    rw (tally-cons P q c cs)
      (omega (arith, clicks_conserved run q, answered-tally P q w before later c a e))
