-- ===== src/Home/Isolation.antt =====
-- website/components/home/isolation.tsx.
use kube_cell.Common.{ℕ, List, [], ◌∷◌, Option, none, some, String, units, length, ◌%◌, get_elem?}
use kube_cell.Dom.{computed, number, Node, text, el, txt, str, cls, map_index, ClassNames}
use kube_cell.Components.Section.{section_heading, center}
use kube_cell.Site.Content.{isolation_controls}

-- `icons`, by the components' names.
unfoldable icons : List String
icons = "ShieldCheck" ∷ "Lock" ∷ "Network" ∷ "ScanSearch" ∷ "Waypoints" ∷ "UserCheck" ∷ []

-- `icons[index % icons.length]`, which is never out of range.
abbrev icon_of : Option String → String
icon_of none = "undefined"
icon_of (some name) = name

unfoldable icon_at : ℕ → String
unfolding icons
icon_at index = icon_of (get_elem? icons (index % length icons))

module _ (cn : ClassNames) where
  unfoldable pub isolation_grid : Node
  unfolding section_heading isolation_controls icon_at
  isolation_grid = el "section" (cls "relative py-20 sm:py-24" ∷ []) (
      (el "div" (cls "container-page" ∷ []) (
        (section_heading cn (some (units "Isolation model"))
          (txt "Isolation is enforced on the host, not promised in a README")
          (some (
            txt
              "Every cluster runs in its own space on the host with real Kubernetes guardrails. Nothing depends on developers behaving well."))
          center none)
        ∷ (el "div" (cls "mt-12 grid gap-4 sm:grid-cols-2 lg:grid-cols-3" ∷ []) (
            map_index
              (λ control index.
                el "MagicCard"
                  (computed "key" control.title
                    ∷ cls "h-full rounded-xl border border-white/10 bg-white/[0.02]"
                    ∷ str "gradientColor" "#1d3f73"
                    ∷ number "gradientOpacity" 5 1
                    ∷ [])
                  ((el "div" (cls "flex h-full flex-col gap-3 p-6" ∷ []) (
                      (el "span"
                        (cls
                            "inline-flex h-10 w-10 items-center justify-center rounded-xl border border-sky-400/20 bg-sky-500/10 text-sky-300"
                          ∷ [])
                        ((el (icon_at index) (cls "h-5 w-5" ∷ []) []) ∷ []))
                      ∷ (el "h3" (cls "text-base font-semibold text-foreground" ∷ [])
                          ((text control.title) ∷ []))
                      ∷ (el "p" (cls "text-sm leading-6 text-muted-foreground" ∷ [])
                          ((text control.description) ∷ []))
                      ∷ []))
                    ∷ []))
              isolation_controls))
        ∷ []))
      ∷ [])
