-- ===== src/View/Analysis.antt =====
-- frontend/src/pages/AIAnalysis.tsx: the page of the analyses. `shown` is the report that is displayed.
pub mod Offers
use guardian_os_ai.Base.{
  ℕ, Bool, false, String, [], ◌∷◌, Option, none, some, length, str_eq, ltb, if◌then◌else◌, ◌^^◌,
}
use guardian_os_ai.Platform.{Platform}
use guardian_os_ai.Api.Types.{ThreatReport, severity_name}
use guardian_os_ai.Format.{format_relative, short_exe, severity_tone}
use guardian_os_ai.Context.Guardian.{Guardian}
use guardian_os_ai.Pages.Analysis.{sorted, report}
use guardian_os_ai.View.Detail.{threat_detail}
use guardian_os_ai.View.Dom.{
  Node, text, on, class, element_of, fragment, each, option_or, select_report,
}
use guardian_os_ai.View.Ui.{tone_badge, panel, page_header, page_meta, empty_state}

unfoldable pub report_item : Platform → ℕ → Option ThreatReport → ThreatReport → Node
report_item P now shown t = element_of "li" [] (
    element_of "button"
      (on "onClick" (select_report t.report_id)
        ∷ class (
            "w-full rounded-lg border px-3 py-2.5 text-left transition-colors "
            ^^ (if option_or shown (λ r. str_eq r.report_id t.report_id) false
                then "border-brand-500 bg-brand-50/60 dark:border-brand-600 dark:bg-brand-950/40"
                else "border-gray-200 hover:bg-gray-50 dark:border-gray-800 dark:hover:bg-gray-800/50"))
        ∷ [])
      (element_of "div" (class "flex items-center justify-between gap-2" ∷ []) (
          element_of "span"
            (class "truncate font-mono text-sm text-gray-800 dark:text-gray-100" ∷ [])
            (text (short_exe t.detection.exe) ∷ [])
          ∷ tone_badge (severity_tone t.detection.severity) ""
              (text (severity_name t.detection.severity) ∷ [])
          ∷ [])
        ∷ element_of "p" (class "mt-1 text-[11px] text-gray-400" ∷ []) (
            text (format_relative t.timestamp now)
            ∷ text " · confidence "
            ∷ text (P.to_fixed t.detection.confidence 2)
            ∷ [])
        ∷ [])
    ∷ [])

unfoldable pub analysis_page : Platform → ℕ → Guardian → (ℕ → Bool) → Bool → Option String → Node
analysis_page P now g busy labelling selected_id = fragment (
    page_meta "AI Analysis"
      "Explainable analysis of every detection: what, why, evidence and recommended action."
    ∷ page_header "AI Analysis"
        (some
          "Explainable investigation: what happened, why it is suspicious, the evidence, and the recommended response.")
        none
    ∷ element_of "div" (class "grid gap-4 lg:grid-cols-5" ∷ []) (
        panel P (some (text "Reports")) none none "lg:col-span-2" (
          (if ltb 0 (length (sorted g.threats))
            then element_of "ul" (class "max-h-[70vh] space-y-2 overflow-y-auto pr-1" ∷ [])
                (each (report_item P now (report selected_id g.threats)) (sorted g.threats) ∷ [])
            else empty_state "No analysis available"
                (some
                  "The AI explainer produces an investigation once the detection engine flags behavior.")
                [])
          ∷ [])
        ∷ element_of "div" (class "lg:col-span-3" ∷ []) (
            option_or (report selected_id g.threats) (λ r. threat_detail P now g busy labelling r)
              (panel P none none none "" (empty_state "No report selected" none [] ∷ []))
            ∷ [])
        ∷ [])
    ∷ [])
