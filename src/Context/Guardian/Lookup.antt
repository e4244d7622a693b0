-- ===== src/Context/Guardian/Lookup.antt =====
-- The list of reports as a table from ids to reports: what a frame does to it.
use mathlib.Core.List.{foldl}
use guardian_os_ai.Base.{◌≡◌, refl, ◌∙◌, String, List, [], ◌∷◌, Option, some, str_eq, if◌then◌else◌}
use guardian_os_ai.Api.Types.{ThreatReport, WsFrame}
use guardian_os_ai.Context.Guardian.{Guardian, upsert_threat, on_frame}
use guardian_os_ai.Context.Guardian.Upsert.{find_report, upsert_threat_lem}
use guardian_os_ai.Context.Guardian.Frames.{reports_in, on_frame-Applies}

-- The last report of the id in a list, or else what was known before.
abbrev pub newest : String → List ThreatReport → Option ThreatReport → Option ThreatReport
newest id [] known = known
newest id (r ∷ rs) known = newest id rs (if str_eq r.report_id id then some r else known)

find-upserts :
    (id : String) (rs ts : List ThreatReport)
    → find_report id (foldl upsert_threat ts rs) ≡ newest id rs (find_report id ts)
find-upserts id [] ts = refl
find-upserts id (r ∷ rs) ts =
    find-upserts id rs (upsert_threat ts r) ∙ rw ((upsert_threat_lem ts r).2 id) refl

-- After a frame an id finds the last report of the frame that has it, and if none has it, what it found
-- before.
pub find-on_frame :
    (id : String) (frame : WsFrame) (g : Guardian)
    → find_report id (on_frame frame g).0.threats
      ≡ newest id (reports_in frame.items) (find_report id g.threats)
find-on_frame id frame g =
    rw ((on_frame-Applies frame g).threats_upserted)
      (find-upserts id (reports_in frame.items) g.threats)
