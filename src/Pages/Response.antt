-- ===== src/Pages/Response.antt =====
-- frontend/src/pages/Response.tsx: the actions of all reports in one table.
pub mod Rows
use guardian_os_ai.Base.{
  ℕ, ◌+◌, Bool, String, List, [], ◌∷◌, ◌++◌, Option, none, some, filter, sort_desc,
}
use guardian_os_ai.Api.Types.{
  ActionStatus, ActionType, pending_approval, recommended, executed, rejected, failed,
  ResponseAction, ThreatReport, status_eq,
}

-- The filter buttons; `none` is "all".
abbrev pub statuses : List (Option ActionStatus)
statuses =
    none
    ∷ some pending_approval
    ∷ some recommended
    ∷ some executed
    ∷ some rejected
    ∷ some failed
    ∷ []

pub record ActionRow : Type 0 where
  pub report_id : String
  pub exe : String
  pub pid : ℕ
  pub ts : ℕ
  pub action_index : ℕ
  pub status : ActionStatus
  pub action_type : ActionType
  pub description : String
  pub destructive : Bool

abbrev pub row_of : ThreatReport → ℕ → ResponseAction → ActionRow
row_of t i a = record {
  report_id = t.report_id;
  exe = t.detection.exe;
  pid = t.detection.pid;
  ts = t.timestamp;
  action_index = i;
  status = a.status;
  action_type = a.action_type;
  description = a.description;
  destructive = a.destructive;
}

-- `t.actions.forEach((a, i) => out.push(…))`, from the index `i` on.
unfoldable pub push_actions : ThreatReport → ℕ → List ResponseAction → List ActionRow
push_actions t i [] = []
push_actions t i (a ∷ actions) = row_of t i a ∷ push_actions t (i + 1) actions

unfoldable pub all_rows : List ThreatReport → List ActionRow
unfolding push_actions
all_rows [] = []
all_rows (t ∷ ts) = push_actions t 0 t.actions ++ all_rows ts

abbrev pub by_ts : ActionRow → ℕ
by_ts r = r.ts

abbrev pub keep_status : Option ActionStatus → List ActionRow → List ActionRow
keep_status none list = list
keep_status (some status) list = filter (λ r. status_eq r.status status) list

-- The memo `rows`.
unfoldable pub rows : Option ActionStatus → List ThreatReport → List ActionRow
unfolding all_rows
rows wanted threats = keep_status wanted (sort_desc by_ts (all_rows threats))
