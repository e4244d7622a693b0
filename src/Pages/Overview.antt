-- ===== src/Pages/Overview.antt =====
-- frontend/src/pages/Overview.tsx: the figures and lists of the first page.
pub mod Suspects
pub mod Firsts
use guardian_os_ai.Base.{
  ℕ, Bool, String, List, [], ◌∷◌, ◌++◌, Option, none, some, map, any, take, length, head?, ◌==◌,
  ltb, if◌then◌else◌, ◌^^◌, decimal, or_else,
}
use guardian_os_ai.Api.Types.{KernelEvent, ThreatReport, Severity, Health}
use guardian_os_ai.Format.{SeverityCounts, severity_counts}

pub record Suspect : Type 0 where
  pub exe : String
  pub pid : ℕ
  pub severity : Severity
  pub ts : ℕ

abbrev pub suspect_of : ThreatReport → Suspect
suspect_of t = record {
  exe = t.detection.exe;
  pid = t.detection.pid;
  severity = t.detection.severity;
  ts = t.timestamp;
}

-- The loop over the reports; `seen` is the map's values in the order of insertion.
unfoldable pub collect : List ThreatReport → List Suspect → List Suspect
collect [] seen = seen
collect (t ∷ ts) seen =
    collect ts
      (if any (λ s. s.pid == t.detection.pid) seen then seen else seen ++ suspect_of t ∷ [])

-- The memo `suspiciousProcesses`.
unfoldable pub suspicious_processes : List ThreatReport → List Suspect
unfolding collect
suspicious_processes threats = take 8 (collect threats [])

-- `[...new Set(events.map((e) => e.pid))]`
unfoldable pub distinct_pids : List KernelEvent → List ℕ → List ℕ
distinct_pids [] seen = seen
distinct_pids (e ∷ es) seen =
    distinct_pids es (if any (λ p. p == e.pid) seen then seen else seen ++ e.pid ∷ [])
