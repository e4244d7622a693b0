-- ===== src/View/Detail/Evidence.antt =====
-- frontend/src/components/ThreatDetail.tsx: why a report is suspicious, its scores and its evidence.
use guardian_os_ai.Base.{
  ℕ, String, [], ◌∷◌, none, some, length, ltb, ◌==◌, if◌then◌else◌, ◌^^◌, decimal,
}
use guardian_os_ai.Platform.{Platform}
use guardian_os_ai.Api.Types.{ThreatReport, ChainStep, MitreReference, severity_name}
use guardian_os_ai.Format.{red}
use guardian_os_ai.View.Dom.{Node, text, attr, class, element_of, each, when}
use guardian_os_ai.View.Ui.{tone_badge, panel}

-- The items of the lists.
unfoldable pub feature_item : Platform → String × ℕ → Node
feature_item P (name, value) =
    element_of "span"
      (class
          "rounded-md bg-gray-100 px-2 py-0.5 font-mono text-[11px] text-gray-600 dark:bg-gray-800 dark:text-gray-300"
        ∷ attr "title" ((P.to_fixed value 3))
        ∷ [])
      (text name ∷ text " " ∷ text (P.to_fixed value 2) ∷ [])

unfoldable pub chain_item : ChainStep → Node
chain_item step = element_of "li" (class "flex items-start gap-2 text-xs" ∷ []) (
    element_of "span"
      (class (
          "mt-0.5 shrink-0 rounded px-1.5 py-0.5 font-mono "
          ^^ (if step.suspicious
              then "bg-error-50 text-error-700 dark:bg-error-950 dark:text-error-300"
              else "bg-gray-100 text-gray-500 dark:bg-gray-800 dark:text-gray-400"))
        ∷ [])
      (text step.kind ∷ [])
    ∷ element_of "span" (class "text-gray-600 dark:text-gray-300" ∷ []) (
        text step.description
        ∷ element_of "span" (class "text-gray-400" ∷ [])
            (text " · pid " ∷ text (decimal step.pid) ∷ [])
        ∷ [])
    ∷ [])

unfoldable pub technique_item : MitreReference → Node
technique_item m =
    element_of "a"
      (attr "href" m.url
        ∷ attr "target" "_blank"
        ∷ attr "rel" "noreferrer"
        ∷ attr "title" (m.name ^^ " (" ^^ m.tactic ^^ ")")
        ∷ class
            "rounded-md border border-brand-200 px-2 py-0.5 font-mono text-[11px] text-brand-600 transition-colors hover:bg-brand-50 dark:border-brand-900 dark:text-brand-300 dark:hover:bg-brand-950"
        ∷ [])
      (text m.technique_id ∷ [])

-- The panels of `ThreatDetail`.
unfoldable pub reasons_panel : Platform → ThreatReport → Node
reasons_panel P r =
    panel P (some (text "Why is it suspicious"))
      (some (text "Behavior that deviates from the learned baseline")) none ""
      (element_of "ul" (class "space-y-1.5" ∷ []) (
          each
            (λ reason.
              element_of "li" (class "flex gap-2 text-sm text-gray-600 dark:text-gray-300" ∷ []) (
                element_of "span" (class "mt-1.5 size-1.5 shrink-0 rounded-full bg-brand-500" ∷ [])
                  []
                ∷ text reason
                ∷ []))
            r.explanation.reasons
          ∷ when (length r.explanation.reasons == 0) (
              element_of "li" (class "text-sm text-gray-400" ∷ [])
                (text "No deviation reasons were produced." ∷ []))
          ∷ [])
        ∷ [])

unfoldable pub risk_panel : Platform → ThreatReport → Node
risk_panel P r =
    panel P (some (text "Risk assessment"))
      (some (text "Score, severity and contributing features")) none ""
      (element_of "div" (class "space-y-2 text-sm" ∷ []) (
          element_of "div" (class "flex justify-between" ∷ []) (
            element_of "span" (class "text-gray-500 dark:text-gray-400" ∷ []) (text "Severity" ∷ [])
            ∷ tone_badge red "" (text (severity_name r.detection.severity) ∷ [])
            ∷ [])
          ∷ element_of "div" (class "flex justify-between" ∷ []) (
              element_of "span" (class "text-gray-500 dark:text-gray-400" ∷ [])
                (text "Anomaly score" ∷ [])
              ∷ element_of "span" (class "font-mono text-gray-800 dark:text-gray-200" ∷ [])
                  (text (P.to_fixed r.detection.anomaly_score 3) ∷ [])
              ∷ [])
          ∷ element_of "div" (class "flex justify-between" ∷ []) (
              element_of "span" (class "text-gray-500 dark:text-gray-400" ∷ [])
                (text "Confidence" ∷ [])
              ∷ element_of "span" (class "font-mono text-gray-800 dark:text-gray-200" ∷ [])
                  (text (P.to_fixed r.explanation.confidence 3) ∷ [])
              ∷ [])
          ∷ element_of "div" (class "flex justify-between" ∷ []) (
              element_of "span" (class "text-gray-500 dark:text-gray-400" ∷ [])
                (text "ML score" ∷ [])
              ∷ element_of "span" (class "font-mono text-gray-800 dark:text-gray-200" ∷ [])
                  (text (P.to_fixed r.detection.context.ml_score 3) ∷ [])
              ∷ [])
          ∷ element_of "div" (class "flex justify-between" ∷ []) (
              element_of "span" (class "text-gray-500 dark:text-gray-400" ∷ [])
                (text "Hard signal score" ∷ [])
              ∷ element_of "span" (class "font-mono text-gray-800 dark:text-gray-200" ∷ [])
                  (text (P.to_fixed r.detection.context.signal_score 3) ∷ [])
              ∷ [])
          ∷ element_of "div" (class "pt-1" ∷ []) (
              element_of "p"
                (class "mb-1 text-xs font-medium uppercase tracking-wide text-gray-400" ∷ [])
                (text "Contributing features" ∷ [])
              ∷ element_of "div" (class "flex flex-wrap gap-1.5" ∷ [])
                  (each (feature_item P) r.detection.contributing_features ∷ [])
              ∷ [])
          ∷ [])
        ∷ [])

unfoldable pub evidence_panel : Platform → ThreatReport → Node
evidence_panel P r =
    panel P (some (text "Evidence")) (some (text "Attack chain and MITRE ATT&CK mapping")) none "" (
      (if ltb 0 (length r.explanation.chain)
        then element_of "ol" (class "space-y-1.5" ∷ []) (each chain_item r.explanation.chain ∷ [])
        else element_of "p" (class "text-xs text-gray-400" ∷ [])
            (text "No chain steps produced." ∷ []))
      ∷ when (ltb 0 (length r.explanation.mitre)) (
          element_of "div" (class "mt-3 flex flex-wrap gap-1.5" ∷ [])
            (each technique_item r.explanation.mitre ∷ []))
      ∷ [])
