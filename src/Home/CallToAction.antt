-- ===== src/Home/CallToAction.antt =====
-- website/components/home/cta.tsx.
use kube_cell.Common.{true, [], ◌∷◌, Option, some, Text, units}
use kube_cell.Dom.{computed, number, flag, Node, el, txt, str, cls, ClassNames}
use kube_cell.Components.Brand.{shimmer_link}
use kube_cell.Site.Config.{site_config}

module _ (cn : ClassNames) (env : Option Text) where
  unfoldable pub call_to_action : Node
  unfolding shimmer_link site_config
  call_to_action = el "section" (cls "relative py-20 sm:py-28" ∷ []) (
      (el "div" (cls "container-page" ∷ []) (
        (el "div"
          (cls
              "relative mx-auto max-w-4xl overflow-hidden rounded-3xl border border-white/10 bg-[#060a13] px-6 py-16 text-center sm:px-14"
            ∷ [])
          ((el "Meteors" (number "number" 22 0 ∷ cls "opacity-70" ∷ []) [])
            ∷ (el "div"
                (cls
                    "pointer-events-none absolute -top-24 left-1/2 h-64 w-[36rem] -translate-x-1/2 rounded-full bg-sky-500/15 blur-[100px]"
                  ∷ [])
                [])
            ∷ (el "div" (cls "relative" ∷ []) (
                (el "Backlight" (number "blur" 14 0 ∷ cls "mx-auto" ∷ []) (
                  (el "h2"
                    (cls
                        "text-balance text-3xl font-semibold tracking-tight text-foreground sm:text-4xl"
                      ∷ [])
                    ((txt "Give every developer a real cluster") ∷ []))
                  ∷ []))
                ∷ (el "p"
                    (cls
                        "mx-auto mt-4 max-w-2xl text-pretty text-base leading-7 text-muted-foreground"
                      ∷ [])
                    ((txt
                        "Start with the read-only preflight. Nothing is created until you explicitly confirm, so the first command you run is always safe.")
                      ∷ []))
                ∷ (el "div"
                    (cls "mt-8 flex flex-col items-center justify-center gap-3 sm:flex-row" ∷ [])
                    ((shimmer_link cn (units "/quickstart/") ((txt "Read the quickstart") ∷ [])
                        (some (units "h-11 px-6 text-sm font-medium")))
                      ∷ (el "Button"
                          (str "variant" "outline" ∷ str "size" "lg" ∷ flag "asChild" true ∷ [])
                          ((el "a"
                              (computed "href" ((site_config env).github)
                                ∷ str "target" "_blank"
                                ∷ str "rel" "noreferrer"
                                ∷ [])
                              ((txt "Browse the source") ∷ []))
                            ∷ []))
                      ∷ []))
                ∷ (el "p" (cls "mt-6 font-mono text-xs text-muted-foreground" ∷ []) (
                    (txt
                      "go run ./cmd/kubecell-installer doctor management --bundle ./kubecell-release")
                    ∷ []))
                ∷ []))
            ∷ []))
        ∷ []))
      ∷ [])
