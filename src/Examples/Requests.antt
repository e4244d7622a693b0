-- ===== src/Examples/Requests.antt =====
-- The client, the socket and the shared state.
use guardian_os_ai.Base.{
  ◌≡◌, refl, true, false, String, List, [], ◌∷◌, none, some, here, ◌⊎◌, head?, count, filter,
  str_eq, if◌then◌else◌,
}
use guardian_os_ai.Api.Types.{benign, WsFrame, LabelRequest, obj, field, end, str}
use guardian_os_ai.Api.Client.{
  parsed, Response, build_request, get_init, request, Sent, Reply, replied,
}
use guardian_os_ai.Api.Client.Laws.{Carries}
use guardian_os_ai.Api.Client.Answers.{Reflects, request-Reflects}
use guardian_os_ai.Api.Endpoints.Requests.{call_requests-Carry}
use guardian_os_ai.Api.Endpoints.{
  call_path, fetch_health, fetch_threats, fetch_events, label_threat, call_init, label_body,
}
use guardian_os_ai.Api.Socket.{connect}
use guardian_os_ai.Api.Socket.Relation.{
  World, start, next, shut, unmounted, Reach, started, then_next,
}
use guardian_os_ai.Api.Socket.Liveness.{IsAtWork, Reach-IsAtWork}
use guardian_os_ai.Context.Guardian.{upsert_threat, resolved, refresh, item_action, on_frame}
use guardian_os_ai.Context.Guardian.Upsert.{
  IsDistinct, find_report, has_id, lacks_id, upsert_threat_lem,
}
use guardian_os_ai.Context.Guardian.Frames.{Applies, reports_in, on_frame-Applies}
use guardian_os_ai.Context.Guardian.Lookup.{newest, find-on_frame}
use guardian_os_ai.Context.Guardian.Requests
use guardian_os_ai.Context.Guardian.Requests.{
  settle, threats_answer, report_answer, Reach-IsDistinct,
}
use guardian_os_ai.Context.Sidebar
use guardian_os_ai.Context.Sidebar.{
  mounted, shown_expanded, toggled, toggled_mobile, resized, last_width, even_toggles,
  odd_mobile_toggles, mounted_history,
}
use guardian_os_ai.Context.Theme.{Page, IsSynced, mount, toggle_times, theme_persists}
use guardian_os_ai.Examples.Data.{browser, newer, older, guardian, store}

-- A server that refuses every request, and says why twice.
abbrev refusal : Response
refusal = record {
  status = 403;
  body = parsed (obj (field "detail" (str "old") (field "detail" (str "no token") end)));
}

abbrev refusing : Sent → Reply
refusing sent = replied refusal

request-Reflects_example :
    Reflects browser (replied refusal) (request browser store refusing "/x" get_init)
request-Reflects_example = request-Reflects browser store refusing "/x" get_init

abbrev label : LabelRequest
label = record { verdict = benign; note = none }

abbrev sent : Sent
sent =
    build_request store (call_path (label_threat "a" label))
      (call_init browser (label_threat "a" label))

call_requests-Carry_example :
    Carries store
      (call_path (label_threat "a" label))
      (call_init browser (label_threat "a" label))
      sent
    × (sent.method ≡ some "POST")
    × ((sent.body ≡ none)
        ⊎ ((id : String) × (b : LabelRequest) × (label_threat "a" label ≡ label_threat id b)
            × (sent.body ≡ some (browser.stringify (label_body b)))))
call_requests-Carry_example = call_requests-Carry browser store (label_threat "a" label)

-- The first socket is shut, and then the component unmounts.
abbrev first : World
first = start browser store true

abbrev after_shut : World
after_shut = next browser (shut 0) first

shut_reach : Reach browser after_shut
unfolding start next connect
shut_reach = then_next (shut 0) (started store true) (here refl)

Reach-IsAtWork_example : IsAtWork after_shut
Reach-IsAtWork_example = Reach-IsAtWork browser shut_reach

abbrev after_unmount : World
after_unmount = next browser unmounted first

unmount_reach : Reach browser after_unmount
unfolding start next connect
unmount_reach = then_next unmounted (started store true) refl

upsert_threat_lem_example :
    (head? (upsert_threat (newer ∷ older ∷ []) older) ≡ some older)
    × (count (has_id "a") (upsert_threat (newer ∷ older ∷ []) older) ≡ 1)
    × ((id : String)
        → find_report id (upsert_threat (newer ∷ older ∷ []) older)
          ≡ (if str_eq "a" id then some older else find_report id (newer ∷ older ∷ [])))
    × (filter (lacks_id "a") (upsert_threat (newer ∷ older ∷ []) older)
        ≡ filter (lacks_id "a") (newer ∷ older ∷ []))
upsert_threat_lem_example = upsert_threat_lem (newer ∷ older ∷ []) older

abbrev frame : WsFrame
frame = record {
  seq = 1;
  items =
      record {
        kind = some "report";
        payload = some (record { report = some newer; health = none });
      }
      ∷ [];
}

on_frame-Applies_example :
    Applies (newer ∷ []) [] guardian (on_frame frame guardian).0 (on_frame frame guardian).1
unfolding item_action
on_frame-Applies_example = on_frame-Applies frame guardian

-- The provider has mounted, and the list of reports arrives.
answered_reach : Requests.Reach (record {
  guardian =
      (settle
        (fetch_threats 200)
        (threats_answer (resolved (newer ∷ [])))
        Requests.start.guardian).0;
  in_flight = fetch_health ∷ fetch_events 200 ∷ [];
})
unfolding refresh settle
answered_reach = Requests.next Requests.here (
    Requests.answers Requests.start (fetch_health ∷ []) (fetch_events 200 ∷ []) (fetch_threats 200)
      (threats_answer (resolved (newer ∷ []))) refl (tt, tt))

Reach-IsDistinct_example :
    IsDistinct
      (settle
        (fetch_threats 200)
        (threats_answer (resolved (newer ∷ [])))
        Requests.start.guardian).0.threats
Reach-IsDistinct_example = Reach-IsDistinct answered_reach

abbrev history : List Sidebar.Event
history = toggled_mobile ∷ resized 500 ∷ toggled ∷ []

mounted_history_example :
    ((mounted 1200 history).is_mobile ≡ true)
    × ((mounted 1200 history).is_expanded ≡ false)
    × (shown_expanded (mounted 1200 history) ≡ false)
    × ((mounted 1200 history).is_mobile_open ≡ true)
mounted_history_example = mounted_history 1200 history

abbrev page : Page
page = record { storage = store; dark_class = false }

theme_persists_example :
    IsSynced (toggle_times 3 (mount page))
    × ((mount (toggle_times 3 (mount page)).1).0.theme ≡ (toggle_times 3 (mount page)).0.theme)
theme_persists_example = theme_persists page 3

find-on_frame_example :
    find_report "b" (on_frame frame guardian).0.threats
    ≡ newest "b" (reports_in frame.items) (find_report "b" guardian.threats)
find-on_frame_example = find-on_frame "b" frame guardian
