-- ===== src/Pages/Analysis.antt =====
-- frontend/src/pages/AIAnalysis.tsx: the report that is analysed.
pub mod Choice
use guardian_os_ai.Base.{
  Bool, false, String, List, [], ◌∷◌, Option, none, some, find, head?, or_else, sort_desc, str_eq,
  if◌then◌else◌,
}
use guardian_os_ai.Api.Types.{ThreatReport}
use guardian_os_ai.Pages.Threats.{by_time}

unfoldable pub sorted : List ThreatReport → List ThreatReport
sorted threats = sort_desc by_time threats

-- `selectedId ?? sorted[0]?.report_id`
abbrev pub wanted_id : Option String → List ThreatReport → Option String
wanted_id (some id) list = some id
wanted_id none [] = none
wanted_id none (t ∷ ts) = some t.report_id

-- `t.report_id === id`, where the id may be undefined.
abbrev pub is_report : Option String → ThreatReport → Bool
is_report none t = false
is_report (some id) t = str_eq t.report_id id

-- `selected ?? sorted[0]`
abbrev pub or_first : Option ThreatReport → List ThreatReport → Option ThreatReport
or_first (some t) list = some t
or_first none list = head? list

unfoldable pub report : Option String → List ThreatReport → Option ThreatReport
unfolding sorted
report selected_id threats =
    let list = sorted threats in or_first (find (is_report (wanted_id selected_id list)) list) list
