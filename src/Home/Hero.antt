-- ===== src/Home/Hero.antt =====
-- website/components/home/hero.tsx.
use kube_cell.Common.{ℕ, Bool, true, false, List, [], ◌∷◌, Option, none, some, Text, units, map}
use kube_cell.Dom.{computed, number, flag, list, Node, text, el, txt, str, cls, ClassNames}
use kube_cell.Components.CodeBlock.{code_block}
use kube_cell.Highlight.Types.{Language}
use kube_cell.Components.Brand.{shimmer_link}
use kube_cell.Site.Config.{site_config}

abbrev pub hero_manifest : Text
hero_manifest =
    units
      "apiVersion: kubecell.io/v1alpha1\nkind: VirtualCluster\nmetadata:\n  name: child-dev\n  namespace: kubecell-system\nspec:\n  cellRef: {name: cell1}\n  classRef: {name: ascend-910b}"

pub record HeroStat : Type 0 where
  pub value : ℕ
  pub suffix : Text
  pub label : Text

abbrev pub hero_stats : List HeroStat
hero_stats =
    record { value = 0; suffix = units ""; label = units "VMs to manage" }
    ∷ record { value = 8; suffix = units ""; label = units "lines to create a cluster" }
    ∷ record { value = 20; suffix = units " min"; label = units "from apply to first Ready" }
    ∷ record { value = 100; suffix = units "%"; label = units "standard kubectl, Helm, and CI" }
    ∷ []

-- `copied` is the state of the copy button.
module _ (cn : ClassNames) (env : Option Text) where
  unfoldable pub hero : Bool → Node
  unfolding shimmer_link site_config
  hero copied = el "section" (cls "relative overflow-hidden pb-16 pt-16 sm:pb-24 sm:pt-24" ∷ []) (
      (el "AnimatedGridPattern"
        (number "numSquares" 36 0
          ∷ number "maxOpacity" 12 2
          ∷ number "duration" 4 0
          ∷ number "repeatDelay" 6 1
          ∷ computed "className" (
              cn (
                some (units "absolute inset-0 -z-10 h-[46rem] w-full")
                ∷ some (units "[mask-image:radial-gradient(60%_60%_at_50%_20%,black,transparent)]")
                ∷ []))
          ∷ [])
        [])
      ∷ (el "div"
          (cls
              "pointer-events-none absolute -top-32 left-1/2 -z-10 h-[28rem] w-[52rem] -translate-x-1/2 rounded-full bg-sky-500/10 blur-[120px]"
            ∷ [])
          [])
      ∷ (el "div"
          (cls
              "pointer-events-none absolute inset-x-0 bottom-0 -z-10 h-40 bg-gradient-to-b from-transparent to-background"
            ∷ [])
          [])
      ∷ (el "div" (cls "container-page relative" ∷ []) (
          (el "div" (cls "mx-auto max-w-3xl text-center" ∷ []) (
            (el "BlurFade" (flag "inView" true ∷ []) (
              (el "Link"
                (str "href" "/docs/"
                  ∷ cls
                      "group inline-flex items-center gap-2 rounded-full border border-white/10 bg-white/[0.03] px-3.5 py-1.5 text-xs text-muted-foreground transition-colors hover:border-sky-400/40 hover:text-foreground"
                  ∷ [])
                ((el "span" (cls "inline-flex h-1.5 w-1.5 rounded-full bg-emerald-400" ∷ []) [])
                  ∷ (el "AnimatedShinyText" (cls "text-xs" ∷ [])
                      ((txt "Open source · pre-release · not production ready yet") ∷ []))
                  ∷ (el "ArrowRight"
                      (cls "h-3 w-3 transition-transform group-hover:translate-x-0.5" ∷ []) [])
                  ∷ []))
              ∷ []))
            ∷ (el "BlurFade" (number "delay" 8 2 ∷ flag "inView" true ∷ []) (
                (el "h1"
                  (cls
                      "mt-6 text-pretty text-4xl font-semibold leading-[1.12] tracking-tight text-foreground sm:text-5xl"
                    ∷ [])
                  ((txt "Give every developer")
                    ∷ (txt " ")
                    ∷ (el "br" (cls "hidden sm:inline" ∷ []) [])
                    ∷ (el "AnimatedGradientText"
                        (str "colorFrom" "#7fb6ff"
                          ∷ str "colorTo" "#c4b5fd"
                          ∷ number "speed" 1 0
                          ∷ [])
                        ((txt "their own Kubernetes cluster") ∷ []))
                    ∷ []))
                ∷ []))
            ∷ (el "BlurFade" (number "delay" 12 2 ∷ flag "inView" true ∷ []) (
                (el "div"
                  (cls
                      "mt-5 flex flex-wrap items-center justify-center gap-2 text-sm text-muted-foreground"
                    ∷ [])
                  ((el "span" [] ((txt "Built for") ∷ []))
                    ∷ (el "WordRotate"
                        (cls "text-sm font-medium text-sky-300"
                          ∷ list "words" (
                              (units "AI research teams")
                              ∷ (units "platform engineering")
                              ∷ (units "training labs")
                              ∷ (units "CI pipelines")
                              ∷ (units "edge sites")
                              ∷ [])
                          ∷ [])
                        [])
                    ∷ []))
                ∷ []))
            ∷ (el "BlurFade" (number "delay" 16 2 ∷ flag "inView" true ∷ []) (
                (el "p"
                  (cls
                      "mx-auto mt-6 max-w-2xl text-pretty text-base leading-7 text-muted-foreground sm:text-lg"
                    ∷ [])
                  ((txt
                      "Each developer gets an isolated cluster on the hardware you already own: standard")
                    ∷ (txt " ")
                    ∷ (el "span" (cls "text-foreground/90" ∷ []) ((txt "kubectl") ∷ []))
                    ∷ (txt
                        ", a real control plane, persistent storage, and hard CPU, memory, and GPU quotas. No VM per person, no shared namespace everyone has to trust.")
                    ∷ []))
                ∷ []))
            ∷ (el "BlurFade" (number "delay" 24 2 ∷ flag "inView" true ∷ []) (
                (el "div"
                  (cls "mt-8 flex flex-col items-center justify-center gap-3 sm:flex-row" ∷ [])
                  ((shimmer_link cn (units "/quickstart/")
                      ((el "TerminalIcon" (cls "h-4 w-4" ∷ []) [])
                        ∷ (txt "Start the quickstart")
                        ∷ [])
                      (some (units "h-11 px-6 text-sm font-medium shadow-2xl")))
                    ∷ (el "Button"
                        (str "variant" "outline" ∷ str "size" "lg" ∷ flag "asChild" true ∷ [])
                        ((el "a"
                            (computed "href" ((site_config env).github)
                              ∷ str "target" "_blank"
                              ∷ str "rel" "noreferrer"
                              ∷ [])
                            ((el "Github" (cls "h-4 w-4" ∷ []) []) ∷ (txt "View on GitHub") ∷ []))
                          ∷ []))
                    ∷ []))
                ∷ []))
            ∷ []))
          ∷ (el "BlurFade" (number "delay" 32 2 ∷ flag "inView" true ∷ []) (
              (el "div" (cls "relative mx-auto mt-14 max-w-2xl" ∷ []) (
                (el "div"
                  (cls
                      "absolute -inset-x-6 -inset-y-4 -z-10 rounded-3xl bg-gradient-to-r from-sky-500/10 via-transparent to-violet-500/10 blur-2xl"
                    ∷ [])
                  [])
                ∷ (code_block cn copied hero_manifest (some Language.yaml)
                    (some (units "virtualcluster.yaml")) none false none)
                ∷ (el "BorderBeam"
                    (number "size" 220 0
                      ∷ number "duration" 10 0
                      ∷ str "colorFrom" "#38bdf8"
                      ∷ str "colorTo" "#8b5cf6"
                      ∷ number "borderWidth" 1 0
                      ∷ cls "rounded-xl"
                      ∷ [])
                    [])
                ∷ []))
              ∷ []))
          ∷ (el "BlurFade" (number "delay" 4 1 ∷ flag "inView" true ∷ []) (
              (el "dl"
                (cls "mx-auto mt-14 grid max-w-4xl grid-cols-2 gap-x-6 gap-y-8 sm:grid-cols-4" ∷ [])
                (map
                  (λ stat. el "div" (computed "key" stat.label ∷ cls "text-center" ∷ []) (
                    (el "dt" (cls "sr-only" ∷ []) ((text stat.label) ∷ []))
                    ∷ (el "dd"
                        (cls "text-3xl font-semibold tracking-tight text-foreground sm:text-4xl"
                          ∷ [])
                        ((el "NumberTicker"
                            (number "value" stat.value 0 ∷ cls "text-foreground" ∷ []) [])
                          ∷ (text stat.suffix)
                          ∷ []))
                    ∷ (el "p" (cls "mt-1.5 text-xs leading-5 text-muted-foreground" ∷ [])
                        ((text stat.label) ∷ []))
                    ∷ []))
                  hero_stats))
              ∷ []))
          ∷ []))
      ∷ [])
