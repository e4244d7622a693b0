-- ===== src/Context/Guardian/Frames.antt =====
-- What a frame of the WebSocket does to the state, without the loop's branches.
use mathlib.Core.List.{foldl}
use guardian_os_ai.Base.{
  ◌≡◌, refl, String, List, [], ◌∷◌, ◌++◌, Option, none, some, ◌∙◌, length, replicate,
}
use guardian_os_ai.Api.Types.{ThreatReport, Health, FrameItem, WsFrame}
use guardian_os_ai.Api.Endpoints.{Call, fetch_events, default_limit}
use guardian_os_ai.Context.Guardian.{
  Guardian, upsert_threat, merge_health, ItemAction, shows_report, patches_health, ignored,
  item_action, run_item, run_items, on_frame,
}

-- The reports of a frame, and its health patches, in order.
abbrev pub add_report : ItemAction → List ThreatReport → List ThreatReport
add_report (shows_report r) rs = r ∷ rs
add_report (patches_health h) rs = rs
add_report ignored rs = rs

abbrev pub reports_in : List FrameItem → List ThreatReport
reports_in [] = []
reports_in (item ∷ items) = add_report (item_action item) (reports_in items)

abbrev pub add_patch : ItemAction → List Health → List Health
add_patch (shows_report r) hs = hs
add_patch (patches_health h) hs = h ∷ hs
add_patch ignored hs = hs

abbrev pub patches_in : List FrameItem → List Health
patches_in [] = []
patches_in (item ∷ items) = add_patch (item_action item) (patches_in items)

abbrev pub patch_health : Option Health → Health → Option Health
patch_health prev patch = some (merge_health prev patch)

abbrev pub error_after : List Health → Option String → Option String
error_after [] e = e
error_after (h ∷ hs) e = none

-- What items with these reports and patches leave and ask for: the reports are upserted in order, the
-- patches merged in order, a health error is cleared when there is a patch, events are fetched once
-- for each report, and all else is as before.
pub record Applies (rs : List ThreatReport) (hs : List Health) (g g' : Guardian) (calls : List Call)
    : Type 0 where
  pub threats_upserted : g'.threats ≡ foldl upsert_threat g.threats rs
  pub health_merged : g'.health ≡ foldl patch_health g.health hs
  pub health_error_cleared : g'.health_error ≡ error_after hs g.health_error
  pub events_fetched : calls ≡ replicate (length rs) (fetch_events default_limit)
  pub connected_kept : g'.connected ≡ g.connected
  pub events_kept : g'.events ≡ g.events
  pub threats_error_kept : g'.threats_error ≡ g.threats_error
  pub events_error_kept : g'.events_error ≡ g.events_error
  pub mutation_error_kept : g'.mutation_error ≡ g.mutation_error

error_after-none : (hs : List Health) → error_after hs none ≡ none
error_after-none [] = refl
error_after-none (h ∷ hs) = refl

Applies-cons :
    (a : ItemAction) (rs : List ThreatReport) (hs : List Health) (g g' : Guardian)
    (calls : List Call)
    → Applies rs hs (run_item a g).0 g' calls
    → Applies (add_report a rs) (add_patch a hs) g g' ((run_item a g).1 ++ calls)
unfolding run_item
Applies-cons (shows_report r) rs hs g g' calls ih = record {
  threats_upserted = ih.threats_upserted;
  health_merged = ih.health_merged;
  health_error_cleared = ih.health_error_cleared;
  events_fetched = cc (ih.events_fetched);
  connected_kept = ih.connected_kept;
  events_kept = ih.events_kept;
  threats_error_kept = ih.threats_error_kept;
  events_error_kept = ih.events_error_kept;
  mutation_error_kept = ih.mutation_error_kept;
}
Applies-cons (patches_health h) rs hs g g' calls ih = record {
  threats_upserted = ih.threats_upserted;
  health_merged = ih.health_merged;
  health_error_cleared = ih.health_error_cleared ∙ error_after-none hs;
  events_fetched = ih.events_fetched;
  connected_kept = ih.connected_kept;
  events_kept = ih.events_kept;
  threats_error_kept = ih.threats_error_kept;
  events_error_kept = ih.events_error_kept;
  mutation_error_kept = ih.mutation_error_kept;
}
Applies-cons ignored rs hs g g' calls ih = ih

run_items-Applies :
    (items : List FrameItem) (g : Guardian)
    → Applies (reports_in items) (patches_in items) g (run_items items g).0 (run_items items g).1
unfolding run_items
run_items-Applies [] g = record {
  threats_upserted = refl;
  health_merged = refl;
  health_error_cleared = refl;
  events_fetched = refl;
  connected_kept = refl;
  events_kept = refl;
  threats_error_kept = refl;
  events_error_kept = refl;
  mutation_error_kept = refl;
}
run_items-Applies (item ∷ items) g =
    Applies-cons (item_action item) (reports_in items) (patches_in items) g _ _
      (run_items-Applies items (run_item (item_action item) g).0)

-- A frame upserts its reports in order and merges its health patches in order; it clears the health
-- error exactly when it has a patch, fetches the events once for each report, and changes nothing
-- else that is shown.
pub on_frame-Applies :
    (frame : WsFrame) (g : Guardian)
    → Applies
        (reports_in frame.items)
        (patches_in frame.items)
        g
        (on_frame frame g).0
        (on_frame frame g).1
unfolding on_frame
on_frame-Applies frame g = run_items-Applies frame.items g
