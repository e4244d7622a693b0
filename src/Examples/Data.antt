-- ===== src/Examples/Data.antt =====
-- A platform with plain formats, two reports of one process, and an event.
use guardian_os_ai.Base.{ℕ, Bool, true, false, String, List, [], ◌∷◌, none, some, decimal}
use guardian_os_ai.Platform.{Platform, Storage}
use guardian_os_ai.Api.Types.{
  null, Severity, low, critical, ActionStatus, pending_approval, executed, kill_process, exec,
  KernelEvent, ResponseAction, ThreatReport,
}
use guardian_os_ai.Context.Guardian.{Guardian, initial}

abbrev pub browser : Platform
browser = record {
  locale_time = decimal;
  locale_date_time = decimal;
  locale_minute = decimal;
  locale_default_time = decimal;
  to_fixed = λ score digits. decimal score;
  stringify = λ v. "null";
  stringify_indented = λ v. "null";
  clsx = λ names. "panel";
  to_lower_case = λ s. s;
  encode_uri_component = λ s. s;
  protocol = "http:";
  host = "localhost";
  origin = "http://localhost";
}

abbrev pub action : ActionStatus → ResponseAction
action status = record {
  action_type = kill_process;
  description = "stop it";
  destructive = true;
  requires_approval = true;
  target = null;
  status = status;
  rationale = "unknown binary";
}

abbrev pub report_of : String → ℕ → Severity → List ResponseAction → ThreatReport
report_of id time severity actions = record {
  report_id = id;
  timestamp = time;
  detection = record {
    pid = 7;
    exe = "/tmp/x";
    raw_score = 0;
    anomaly_score = 900000;
    confidence = 800000;
    severity = severity;
    flagged = true;
    contributing_features = ("rarity", 5) ∷ [];
    context = record { chain_key = "k"; window = (0, 1); ml_score = 1; signal_score = 2 };
  };
  explanation = record {
    summary = "odd";
    reasons = "never seen" ∷ [];
    chain = [];
    mitre = [];
    dag = none;
    confidence = 800000;
    severity = severity;
  };
  actions = actions;
}

abbrev pub newer : ThreatReport
newer = report_of "b" 180000000 critical (action pending_approval ∷ action executed ∷ [])

abbrev pub older : ThreatReport
older = report_of "a" 60000000 low (action executed ∷ [])

abbrev pub event : KernelEvent
event = record {
  event_id = "e1";
  kind = exec;
  timestamp = 90000000;
  pid = 7;
  ppid = 1;
  exe = "/tmp/x";
  cmdline = some ("x" ∷ []);
  uid = none;
  username = none;
  cwd = none;
  details = none;
}

abbrev pub guardian : Guardian
guardian = record initial { connected = true; threats = newer ∷ older ∷ []; events = event ∷ [] }

abbrev pub store : Storage
store = ("theme", "light") ∷ []

abbrev pub idle : ℕ → Bool
idle i = false
