-- ===== src/Home/UseCasePreview.antt =====
-- website/components/home/use-cases-preview.tsx.
use kube_cell.Common.{List, [], ◌∷◌, none, some, Text, String, units, map}
use kube_cell.Dom.{computed, number, Node, text, el, txt, str, cls, ClassNames}
use kube_cell.Components.Section.{section_heading, center}

pub record UseCaseLink : Type 0 where
  pub icon : String
  pub title : Text
  pub description : Text
  pub href : Text

abbrev pub use_cases : List UseCaseLink
use_cases =
    record {
      icon = "BrainCircuit";
      title = units "Accelerator sandboxes";
      description =
          units
            "Give each researcher their own cluster with two dedicated Ascend 910B cards — no partitioning tricks, no shared queue.";
      href = units "/use-cases/#accelerator-sandboxes";
    }
    ∷ record {
      icon = "TestTube2";
      title = units "Ephemeral test environments";
      description =
          units
            "Create a cluster per pull request or integration run, hand over the kubeconfig, then delete it and let KubeCell clean up the host.";
      href = units "/use-cases/#ephemeral-environments";
    }
    ∷ record {
      icon = "GraduationCap";
      title = units "Workshops and training";
      description =
          units
            "Forty students, one physical host, forty clusters. Credentials are easy to hand out, and quotas stop one busy cluster from ruining the class.";
      href = units "/use-cases/#training-labs";
    }
    ∷ record {
      icon = "ShipWheel";
      title = units "Edge and field labs";
      description =
          units
            "Hosts live where the hardware is. They connect outbound to one management plane, so there is no inbound tunnel to maintain per site.";
      href = units "/use-cases/#field-labs";
    }
    ∷ record {
      icon = "Layers3";
      title = units "Self-service for platform teams";
      description =
          units
            "Publish hosts and quota tiers once; teams self-serve clusters inside the limits you defined, with capacity visible to everyone.";
      href = units "/use-cases/#platform-landlord";
    }
    ∷ []

module _ (cn : ClassNames) where
  unfoldable pub use_case_preview : Node
  unfolding section_heading
  use_case_preview = el "section" (cls "relative py-20 sm:py-24" ∷ []) (
      (el "div" (cls "container-page" ∷ []) (
        (section_heading cn (some (units "Use cases"))
          (txt "One operator, five shapes of shared hardware")
          (some (
            txt
              "If a team needs a real Kubernetes API and the hardware lives on shared bare metal, KubeCell is the seam between them."))
          center none)
        ∷ (el "div" (cls "mt-12 grid gap-4 md:grid-cols-2 lg:grid-cols-3" ∷ []) (
            map
              (λ use_case.
                el "GlareHover"
                  (computed "key" use_case.title
                    ∷ cls "h-full rounded-xl border border-white/10"
                    ∷ str "background" "rgba(255,255,255,0.02)"
                    ∷ str "color" "#9ad4ff"
                    ∷ number "opacity" 35 2
                    ∷ number "duration" 600 0
                    ∷ [])
                  ((el "div" (cls "flex h-full flex-col p-6" ∷ []) (
                      (el "span"
                        (cls
                            "inline-flex h-10 w-10 items-center justify-center rounded-xl border border-sky-400/20 bg-sky-500/10 text-sky-300"
                          ∷ [])
                        ((el use_case.icon (cls "h-5 w-5" ∷ []) []) ∷ []))
                      ∷ (el "h3" (cls "mt-4 text-base font-semibold text-foreground" ∷ [])
                          ((text use_case.title) ∷ []))
                      ∷ (el "p" (cls "mt-2 flex-1 text-sm leading-6 text-muted-foreground" ∷ [])
                          ((text use_case.description) ∷ []))
                      ∷ (el "Link"
                          (computed "href" use_case.href
                            ∷ cls
                                "mt-4 inline-flex items-center gap-1.5 text-sm font-medium text-sky-400 transition-colors hover:text-sky-300"
                            ∷ [])
                          ((txt "Read the scenario")
                            ∷ (el "ArrowRight" (cls "h-3.5 w-3.5" ∷ []) [])
                            ∷ []))
                      ∷ []))
                    ∷ []))
              use_cases))
        ∷ []))
      ∷ [])
