-- ===== src/Format.antt =====
-- frontend/src/lib/format.ts: how times, executables and postures are shown. The proofs are in the
-- modules below.
pub mod Relative
pub mod Executable
pub mod Posture
use guardian_os_ai.Base.{
  ℕ, ◌+◌, ◌-◌, ◌*◌, ◌/◌, max, Bool, true, false, String, Char, code, List, [], ◌∷◌, ltb, ◌==◌,
  if◌then◌else◌, ◌||◌, ◌^^◌, decimal, filter, any, str_eq,
}
use Prim.Native.String
use guardian_os_ai.Platform.{Platform}
use guardian_os_ai.Api.Types.{
  Severity, info, low, medium, high, critical, ActionStatus, recommended, pending_approval,
  approved, rejected, executed, failed, ThreatReport, ResponseAction, severity_eq, status_eq,
}

-- Microseconds in a second: the unit in which the model keeps the seconds of the source.
abbrev pub second : ℕ
second = 1000000

-- `formatTime` and `formatDateTime`: the options that the source passes are part of the fields.
unfoldable pub format_time : Platform → ℕ → String
format_time P epoch = P.locale_time epoch

unfoldable pub format_date_time : Platform → ℕ → String
format_date_time P epoch = P.locale_date_time epoch

-- `Math.round` of a duration in seconds: halves go up. A negative duration rounds to 0 or less, so
-- the `Math.max(0, …)` around it gives 0, as the subtraction that stops at 0 does.
unfoldable pub seconds_between : ℕ → ℕ → ℕ
seconds_between epoch now = max 0 ((now - epoch + 500000) / second)

unfoldable pub format_delta : ℕ → String
format_delta delta =
    if ltb delta 60
    then decimal delta ^^ "s ago"
    else if ltb delta 3600
    then decimal (delta / 60) ^^ "m ago"
    else if ltb delta 86400
    then decimal (delta / 3600) ^^ "h ago"
    else decimal (delta / 86400) ^^ "d ago"

unfoldable pub format_relative : ℕ → ℕ → String
unfolding format_delta seconds_between
format_relative epoch now = let delta = seconds_between epoch now in format_delta delta

-- `text.split("/")`, with the part that is being read in front: never empty.
unfoldable pub split_slash : String → String × List String
split_slash String.[] = ("", [])
split_slash (String.◌∷◌ c s) =
    let (first, rest) = split_slash s in
    if code c == b'/' then ("", first ∷ rest) else (String.◌∷◌ c first, rest)

-- `parts.pop()`
unfoldable pub last_part : String → List String → String
last_part first [] = first
last_part first (second ∷ rest) = last_part second rest

unfoldable pub short_exe : String → String
unfolding split_slash last_part
short_exe exe = let (first, rest) = split_slash exe in last_part first rest

abbrev pub severity_order : List Severity
severity_order = info ∷ low ∷ medium ∷ high ∷ critical ∷ []

pub data Tone : Type 0 where
  gray blue amber orange red green : Tone

unfoldable pub severity_tone : Severity → Tone
severity_tone info = gray
severity_tone low = blue
severity_tone medium = amber
severity_tone high = orange
severity_tone critical = red

unfoldable pub action_status_tone : ActionStatus → Tone
action_status_tone recommended = blue
action_status_tone pending_approval = amber
action_status_tone approved = blue
action_status_tone executed = green
action_status_tone rejected = gray
action_status_tone failed = red

pub record ThreatLevel : Type 0 where
  pub label : String
  pub tone : Tone

-- `["recommended", "pending_approval", "approved"].includes(a.status)`
unfoldable pub is_open_action : ResponseAction → Bool
is_open_action a = any (λ s. status_eq s a.status) (recommended ∷ pending_approval ∷ approved ∷ [])

unfoldable pub is_open : ThreatReport → Bool
unfolding is_open_action
is_open t = any is_open_action t.actions

unfoldable pub is_severe : ThreatReport → Bool
is_severe t = severity_eq t.detection.severity critical || severity_eq t.detection.severity high

unfoldable pub is_moderate : ThreatReport → Bool
is_moderate t = severity_eq t.detection.severity medium || severity_eq t.detection.severity low

unfoldable pub threat_level : List ThreatReport → Bool → ThreatLevel
threat_level threats learning =
    let open_threats = filter is_open threats in
    if learning
    then record { label = "LEARNING"; tone = blue }
    else if any is_severe open_threats
    then record { label = "THREAT ACTIVE"; tone = red }
    else if any is_moderate open_threats
    then record { label = "ELEVATED"; tone = amber }
    else record { label = "PROTECTED"; tone = green }

-- `Record<Severity, number>`
pub record SeverityCounts : Type 0 where
  pub info : ℕ
  pub low : ℕ
  pub medium : ℕ
  pub high : ℕ
  pub critical : ℕ

unfoldable pub count_of : SeverityCounts → Severity → ℕ
count_of c info = c.info
count_of c low = c.low
count_of c medium = c.medium
count_of c high = c.high
count_of c critical = c.critical

unfoldable pub bump : SeverityCounts → Severity → SeverityCounts
bump c info = record c { info = c.info + 1 }
bump c low = record c { low = c.low + 1 }
bump c medium = record c { medium = c.medium + 1 }
bump c high = record c { high = c.high + 1 }
bump c critical = record c { critical = c.critical + 1 }

-- The loop of `severityCounts`.
unfoldable pub count_threats : SeverityCounts → List ThreatReport → SeverityCounts
unfolding bump
count_threats counts [] = counts
count_threats counts (t ∷ ts) = count_threats (bump counts t.detection.severity) ts

unfoldable pub severity_counts : List ThreatReport → SeverityCounts
unfolding count_threats
severity_counts threats =
    count_threats (record { info = 0; low = 0; medium = 0; high = 0; critical = 0 }) threats
