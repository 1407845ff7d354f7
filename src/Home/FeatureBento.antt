-- ===== src/Home/FeatureBento.antt =====
-- website/components/home/feature-bento.tsx.
use kube_cell.Common.{List, [], ◌∷◌, none, some, Text, String, units, map}
use kube_cell.Dom.{computed, number, Node, el, txt, str, cls, component, ClassNames}
use kube_cell.Components.Section.{section_heading, center}

pub record FeatureCard : Type 0 where
  pub icon : String
  pub name : Text
  pub description : Text
  pub href : Text
  pub cta : Text
  pub class_name : Text
  pub background : Node

module _ (cn : ClassNames) where
  unfoldable pub cards : List FeatureCard
  cards =
      record {
        icon = "Boxes";
        name = units "Real clusters, not namespaces";
        description =
            units
              "Every developer gets their own API server, so they can install CRDs, operators, and webhooks without stepping on anyone else.";
        href = units "/docs/concepts/";
        cta = units "What you get";
        class_name = units "lg:col-span-1 lg:row-start-1 lg:row-end-1";
        background =
            el "DotPattern"
              (number "width" 20 0
                ∷ number "height" 20 0
                ∷ number "cx" 1 0
                ∷ number "cy" 1 0
                ∷ number "cr" 1 0
                ∷ computed "className" (
                    cn (
                      some (
                        units
                          "[mask-image:radial-gradient(18rem_circle_at_center,white,transparent)]")
                      ∷ []))
                ∷ [])
              [];
      }
      ∷ record {
        icon = "Gauge";
        name = units "Know it will fit before you create it";
        description =
            units
              "A dry-run request tells you whether CPU, memory, GPUs, and storage are available — and exactly what is missing when they are not. Nothing is created until you are ready.";
        href = units "/docs/concepts/";
        cta = units "How the dry run works";
        class_name = units "lg:col-span-2 lg:row-start-1 lg:row-end-2";
        background =
            el "RetroGrid" (cls "opacity-40" ∷ number "cellSize" 48 0 ∷ number "opacity" 35 2 ∷ [])
              [];
      }
      ∷ record {
        icon = "SlidersHorizontal";
        name = units "Grow by picking a bigger tier";
        description =
            units
              "Each cluster presents one node sized by the quota tier you choose. Need more CPU, memory, or another GPU? Move to the next tier instead of learning a new scaling model.";
        href = units "/docs/concepts/";
        cta = units "Understand sizing";
        class_name = units "lg:col-span-2 lg:row-start-2 lg:row-end-3";
        background =
            el "AnimatedGridPattern"
              (number "numSquares" 24 0
                ∷ number "maxOpacity" 14 2
                ∷ number "duration" 4 0
                ∷ computed "className" (
                    cn (
                      some (
                        units
                          "absolute inset-0 [mask-image:radial-gradient(20rem_circle_at_center,white,transparent)]")
                      ∷ []))
                ∷ [])
              [];
      }
      ∷ record {
        icon = "Lock";
        name = units "Isolation you can audit";
        description =
            units
              "Quotas, network policy, and blocked privileged workloads are enforced on the host — visible in the same Kubernetes objects you already know.";
        href = units "/docs/security/";
        cta = units "Security model";
        class_name = units "lg:col-span-1 lg:row-start-2 lg:row-end-3";
        background =
            el "HexagonPattern"
              (number "radius" 22 0
                ∷ number "gap" 6 0
                ∷ str "strokeDasharray" "2 3"
                ∷ cls "absolute inset-0 opacity-40"
                ∷ [])
              [];
      }
      ∷ record {
        icon = "LayoutGrid";
        name = units "Manifests you can read in a minute";
        description =
            units
              "You write which host to use and how much CPU, memory, and GPU you need. Versions, ports, and security defaults are handled for you.";
        href = units "/docs/first-virtualcluster/";
        cta = units "Write your first cluster";
        class_name = units "lg:col-span-1 lg:row-start-3 lg:row-end-3";
        background =
            el "FlickeringGrid"
              (number "squareSize" 3 0
                ∷ number "gridGap" 6 0
                ∷ str "color" "#2f7fe0"
                ∷ number "maxOpacity" 25 2
                ∷ number "flickerChance" 8 2
                ∷ cls
                    "absolute inset-0 [mask-image:radial-gradient(12rem_circle_at_center,white,transparent)]"
                ∷ [])
              [];
      }
      ∷ record {
        icon = "Pin";
        name = units "Tested versions, predictable upgrades";
        description =
            units
              "KubeCell pins the versions it validates and reports drift in resource status, so upgrades are a deliberate step — not a surprise on a Monday morning.";
        href = units "/architecture/";
        cta = units "See what is pinned";
        class_name = units "lg:col-span-2 lg:row-start-3 lg:row-end-3";
        background =
            el "HexagonPattern"
              (number "radius" 30 0
                ∷ number "gap" 10 0
                ∷ str "direction" "vertical"
                ∷ cls "absolute inset-0 opacity-30"
                ∷ [])
              [];
      }
      ∷ []

  unfoldable pub feature_bento : Node
  unfolding section_heading cards
  feature_bento = el "section" (cls "relative py-20 sm:py-24" ∷ []) (
      (el "div" (cls "container-page" ∷ []) (
        (section_heading cn (some (units "Why KubeCell"))
          (txt "Platform-grade isolation without a platform rewrite")
          (some (
            txt
              "Four resources to learn, one management plane to operate, and the Kubernetes workflow your team already knows."))
          center none)
        ∷ (el "div" (cls "mt-12" ∷ []) (
            (el "BentoGrid" (cls "lg:auto-rows-[18rem] lg:grid-cols-3" ∷ []) (
              map
                (λ card.
                  el "BentoCard"
                    (computed "key" card.name
                      ∷ component "Icon" card.icon
                      ∷ computed "name" card.name
                      ∷ computed "description" card.description
                      ∷ computed "href" card.href
                      ∷ computed "cta" card.cta
                      ∷ computed "className" card.class_name
                      ∷ [])
                    ((el "background" [] ((card.background) ∷ [])) ∷ []))
                cards))
            ∷ []))
        ∷ []))
      ∷ [])
