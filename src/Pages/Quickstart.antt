-- ===== src/Pages/Quickstart.antt =====
-- website/app/quickstart/page.tsx.
use kube_cell.Common.{
  Bool, true, false, List, [], ◌∷◌, ◌++◌, Option, none, some, Text, units, map, ◌+◌, ◌*◌,
}
use kube_cell.Dom.{
  computed, number, flag, Node, text, el, fragment_of, txt, str, cls, map_index, ClassNames,
}
use kube_cell.Components.JsonLd.{json_ld}
use kube_cell.Json.{Json, json_string, json_number, json_array, json_object, elements, members}
use kube_cell.Site.Config.{Resolve, with_addresses}
use kube_cell.Components.Section.{section, section_heading, page_hero, center}
use kube_cell.Components.CodeBlock.{code_block}
use kube_cell.Highlight.Types.{Language}
use kube_cell.Site.Metadata.{Metadata, build_metadata}

unfoldable pub metadata : Metadata
unfolding build_metadata
metadata = build_metadata (record {
  title = units "Quickstart";
  description =
      units
        "Go from a fresh host to a working developer cluster in a handful of commands: preflight, join, approve, prepare, then apply an eight-line manifest.";
  path = units "/quickstart/";
  keywords = some (
      units "KubeCell quickstart"
      ∷ units "install KubeCell"
      ∷ units "VirtualCluster tutorial"
      ∷ units "K3k shared mode"
      ∷ units "host onboarding"
      ∷ []);
  type = none;
})

pub record Step : Type 0 where
  pub id : Text
  pub step : Text
  pub title : Text
  pub body : Node
  pub code : Text
  pub language : Language
  pub filename : Text

-- A link to a page of the documentation, with what it is about.
pub record NextStep : Type 0 where
  pub href : Text
  pub title : Text
  pub description : Text

abbrev pub next_steps : List NextStep
next_steps =
    record {
      href = units "/docs/concepts/";
      title = units "Understand the model";
      description = units "How hosts, quota tiers, and clusters fit together.";
    }
    ∷ record {
      href = units "/docs/operations/";
      title = units "Operate it";
      description = units "Capacity, credentials, quota changes, deletion.";
    }
    ∷ record {
      href = units "/docs/security/";
      title = units "Audit isolation";
      description = units "Quotas, network policy, and blocked workloads.";
    }
    ∷ record {
      href = units "/docs/troubleshooting/";
      title = units "Debug failures";
      description = units "Symptom-first fixes for the common cases.";
    }
    ∷ []

-- `copied` is the state of the copy buttons.
module _ (cn : ClassNames) (copied : Bool) where
  unfoldable pub steps : List Step
  steps =
      record {
        id = units "prerequisites";
        step = units "00";
        title = units "What you need before you start";
        body = fragment_of (
            (el "p" [] (
              (txt
                "KubeCell needs one small management cluster and at least one physical host. Both run K3s and must be able to pull the images in your release bundle.")
              ∷ []))
            ∷ (el "ul" (cls "mt-4 space-y-2 text-sm leading-6 text-muted-foreground" ∷ []) (
                (el "li" (cls "flex gap-2" ∷ []) (
                  (el "CheckCircle2" (cls "mt-1 h-4 w-4 shrink-0 text-emerald-400" ∷ []) [])
                  ∷ (txt
                      "A management cluster (single-node K3s) with admin access and outbound network access.")
                  ∷ []))
                ∷ (el "li" (cls "flex gap-2" ∷ []) (
                    (el "CheckCircle2" (cls "mt-1 h-4 w-4 shrink-0 text-emerald-400" ∷ []) [])
                    ∷ (txt
                        "One or more host machines prepared with the platform baseline: kernel drivers, firmware, LVM volume groups, and preloaded images.")
                    ∷ []))
                ∷ (el "li" (cls "flex gap-2" ∷ []) (
                    (el "CheckCircle2" (cls "mt-1 h-4 w-4 shrink-0 text-emerald-400" ∷ []) [])
                    ∷ (txt
                        "A KubeCell release bundle from the releases page: the manifests and images for one tested version, with digests included.")
                    ∷ []))
                ∷ (el "li" (cls "flex gap-2" ∷ []) (
                    (el "CheckCircle2" (cls "mt-1 h-4 w-4 shrink-0 text-emerald-400" ∷ []) [])
                    ∷ (txt
                        "A label on each host node describing what the machine offers, for example")
                    ∷ (txt " ")
                    ∷ (el "code" (cls "font-mono text-xs" ∷ [])
                        ((txt "hardware.kubecell.io/profile=ascend-910b") ∷ []))
                    ∷ (txt ", plus the storage topology labels your platform team provides.")
                    ∷ []))
                ∷ []))
            ∷ (el "div"
                (cls "mt-5 flex gap-3 rounded-xl border border-amber-400/20 bg-amber-500/[0.06] p-4"
                  ∷ [])
                ((el "AlertTriangle" (cls "mt-0.5 h-4 w-4 shrink-0 text-amber-300" ∷ []) [])
                  ∷ (el "p" (cls "text-sm leading-6 text-amber-100/80" ∷ []) (
                      (txt
                        "KubeCell is pre-release software. Run the quickstart in a lab environment, not in production.")
                      ∷ []))
                  ∷ []))
            ∷ []);
        code =
            units
              "# Point at the management cluster (hub) and the host cluster\nexport KUBECONFIG_HUB=~/.kube/hub.yaml\nexport KUBECONFIG_HOST=~/.kube/host.yaml\n\n# Verify the pinned versions in the bundle before anything else\nls kubecell-release/manifests | head";
        language = Language.bash;
        filename = units "prerequisites.sh";
      }
      ∷ record {
        id = units "doctor";
        step = units "01";
        title = units "Run the read-only preflight";
        body = el "p" [] (
            (el "code" (cls "font-mono text-xs" ∷ []) ((txt "doctor") ∷ []))
            ∷ (txt
                " is read-only by default and stops at the first failure. Fix everything it reports before you continue; the installer refuses to guess.")
            ∷ []);
        code =
            units
              "go run ./cmd/kubecell-installer doctor management --bundle ./kubecell-release\ngo run ./cmd/kubecell-installer doctor host \\\n  --bundle ./kubecell-release \\\n  --device huawei.com/Ascend910";
        language = Language.bash;
        filename = units "preflight.sh";
      }
      ∷ record {
        id = units "management";
        step = units "02";
        title = units "Install the management plane";
        body = fragment_of (
            (el "p" [] (
              (txt
                "CRDs first, then the hub that connects your hosts, then the KubeCell controller. The installer stays read-only unless you pass both")
              ∷ (txt " ")
              ∷ (el "code" (cls "font-mono text-xs" ∷ []) ((txt "--apply") ∷ []))
              ∷ (txt " and")
              ∷ (txt " ")
              ∷ (el "code" (cls "font-mono text-xs" ∷ []) ((txt "--confirm") ∷ []))
              ∷ (txt ".")
              ∷ []))
            ∷ (code_block cn copied
                (units
                  "kubectl apply -f kubecell-release/manifests/crds\n\ngo run ./cmd/kubecell-installer management \\\n  --bundle ./kubecell-release --apply --confirm")
                (some Language.bash) (some (units "management.sh")) (some (units "mt-4")) false
                none)
            ∷ []);
        code =
            units
              "# The management chart bundles the optional Kite dashboard\n# (kite.enabled, on by default) for viewing Cell and VirtualCluster CRs.\nhelm list -n kubecell-system";
        language = Language.bash;
        filename = units "verify-management.sh";
      }
      ∷ record {
        id = units "host";
        step = units "03";
        title = units "Onboard the host in four commands";
        body = el "p" [] (
            (txt
              "Join, approve by hand, install the host chart, and generate the Cell from live discovery. The manual approval is a deliberate safety gate: the installer never auto-approves a ManagedCluster.")
            ∷ []);
        code =
            units
              "# 1. join (run against the host cluster)\nKUBECONFIG=$KUBECONFIG_HOST clusteradm join \\\n  --hub-token \"$(clusteradm get token)\" \\\n  --hub-apiserver https://hub.example.com:6443 \\\n  --cluster-name cell1 --wait\n\n# 2. accept (run against the management cluster)\nKUBECONFIG=$KUBECONFIG_HUB clusteradm accept --clusters cell1 --wait\n\n# 3. host chart\nkubectl create ns kubecell-system\nhelm install kubecell-host ./charts/kubecell-host \\\n  --namespace kubecell-system \\\n  --set image.repository=<controller-repo> --set image.tag=<tag>\n\n# 4. Cell, generated from live discovery\ngo run ./cmd/kubecell-installer host --step=cell --cell cell1 \\\n  --kubeconfig $KUBECONFIG_HOST | grep -v '^#' > cell.yaml\nkubectl apply -n kubecell-system -f cell.yaml";
        language = Language.bash;
        filename = units "host-onboarding.sh";
      }
      ∷ record {
        id = units "class";
        step = units "04";
        title = units "Draft a quota tier";
        body = el "p" [] (
            (el "code" (cls "font-mono text-xs" ∷ []) ((txt "suggest-class") ∷ []))
            ∷ (txt
                " derives a tier from observed allocatable capacity. Adjust the numbers down to the tenant envelope you are comfortable with, then apply.")
            ∷ []);
        code =
            units
              "go run ./cmd/kubecell-installer suggest-class \\\n  --cell-file cell.yaml --name ascend-910b\n\nkubectl apply -f virtualnodeclass.yaml\nkubectl -n kubecell-system get cell cell1 -o wide";
        language = Language.bash;
        filename = units "class.sh";
      }
      ∷ record {
        id = units "virtualcluster";
        step = units "05";
        title = units "Plan, then create the child cluster";
        body = el "p" [] (
            (txt "Create a VirtualClusterPlan with identical content first. Wait for")
            ∷ (txt " ")
            ∷ (el "code" (cls "font-mono text-xs" ∷ []) ((txt "status.decision=Accepted") ∷ []))
            ∷ (txt ", then create the VirtualCluster. When it reaches ")
            ∷ (el "code" (cls "font-mono text-xs" ∷ []) ((txt "phase=Ready") ∷ []))
            ∷ (txt ", fetch the admin kubeconfig Secret.")
            ∷ []);
        code =
            units
              "kubectl apply -f virtualcluster-plan.yaml\nkubectl -n kubecell-system get vcp child-dev-plan \\\n  -o jsonpath='{.status.decision}{\"\\n\"}'\n\nkubectl apply -f virtualcluster.yaml\nkubectl -n kubecell-system wait --for=condition=Ready \\\n  vc/child-dev --timeout=20m\n\n# Export the admin kubeconfig (mode 600)\nkubectl -n kubecell-system get secret \\\n  kubecell-child-dev-<uid>-admin-kubeconfig \\\n  -o jsonpath='{.data.kubeconfig\\.yaml}' | base64 -d > child-dev.yaml\nchmod 600 child-dev.yaml\nkubectl --kubeconfig child-dev.yaml get nodes";
        language = Language.bash;
        filename = units "virtualcluster.sh";
      }
      ∷ []

  unfoldable pub how_to_ld_of : (Text → Text) → Json
  unfolding steps
  how_to_ld_of address = json_object (
      members (
        (units "@context", json_string (units "https://schema.org"))
        ∷ (units "@type", json_string (units "HowTo"))
        ∷ (units "name", json_string (units "Provision your first KubeCell VirtualCluster"))
        ∷ (
          units "description",
          json_string (
              units
                "Install the KubeCell management plane, onboard a physical host as a Cell, and create an isolated Kubernetes child cluster."),
        )
        ∷ (units "url", json_string (address (units "/quickstart/")))
        ∷ (
          units "step",
          json_array (
              elements (
                map_index
                  (λ step index. json_object (
                    members (
                      (units "@type", json_string (units "HowToStep"))
                      ∷ (units "position", json_number (index + 1))
                      ∷ (units "name", json_string step.title)
                      ∷ (units "url", json_string (address (units "/quickstart/#" ++ step.id)))
                      ∷ [])))
                  steps)),
        )
        ∷ []))

  unfoldable pub how_to_ld : Resolve → Option Text → Option Json
  unfolding with_addresses how_to_ld_of steps
  how_to_ld resolve env =
      with_addresses resolve env
        (units "/quickstart/" ∷ map (λ (step : Step). units "/quickstart/#" ++ step.id) steps)
        how_to_ld_of

  -- `address` gives the values of `absoluteUrl`.
  unfoldable pub quickstart_page : (Text → Text) → Node
  unfolding steps page_hero section section_heading json_ld
  quickstart_page address = fragment_of (
      (json_ld (how_to_ld_of address))
      ∷ (page_hero (units "Quickstart") (txt "From a fresh host to your first cluster")
          (txt
            "Six steps, four of them commands. The first command only reads, so you can run the whole flow on a lab host without fear.")
          ((el "Badge" (str "variant" "outline" ∷ cls "border-emerald-400/30 text-emerald-300" ∷ [])
              ((txt "~30 minutes hands-on, including image pulls") ∷ []))
            ∷ (el "Link"
                (str "href" "/docs/installation/"
                  ∷ cls
                      "inline-flex items-center gap-1.5 text-sm font-medium text-sky-400 transition-colors hover:text-sky-300"
                  ∷ [])
                ((txt "Full installation guide")
                  ∷ (el "ArrowRight" (cls "h-3.5 w-3.5" ∷ []) [])
                  ∷ []))
            ∷ []))
      ∷ (section cn none none (
          (el "div" (cls "space-y-16" ∷ []) (
            map_index
              (λ step index.
                el "BlurFade"
                  (computed "key" step.id ∷ number "delay" (index * 4) 2 ∷ flag "inView" true ∷ [])
                  ((el "div" (computed "id" step.id ∷ cls "scroll-mt-24" ∷ []) (
                      (el "div" (cls "grid gap-8 lg:grid-cols-[0.85fr_1.15fr] lg:gap-12" ∷ []) (
                        (el "div" [] (
                          (el "div" (cls "flex items-center gap-3" ∷ []) (
                            (el "span" (cls "font-mono text-xs text-sky-400" ∷ [])
                              ((text step.step) ∷ []))
                            ∷ (el "span"
                                (cls "h-px flex-1 bg-gradient-to-r from-sky-400/40 to-transparent"
                                  ∷ [])
                                [])
                            ∷ []))
                          ∷ (el "h2"
                              (cls "mt-4 text-2xl font-semibold tracking-tight text-foreground"
                                ∷ [])
                              ((text step.title) ∷ []))
                          ∷ (el "div" (cls "mt-4 text-sm leading-7 text-muted-foreground" ∷ [])
                              (step.body ∷ []))
                          ∷ []))
                        ∷ (code_block cn copied step.code (some step.language)
                            (some (step.filename)) none false none)
                        ∷ []))
                      ∷ []))
                    ∷ []))
              steps))
          ∷ []))
      ∷ (section cn none (some (units "border-t border-white/5 bg-white/[0.015]")) (
          (section_heading cn (some (units "Next steps")) (txt "Now that a cluster exists")
            (some (
              txt
                "The interesting part is day two: keeping tenants honest, wiring ingress, and reclaiming storage."))
            center none)
          ∷ (el "div" (cls "mt-10 grid gap-4 sm:grid-cols-2 lg:grid-cols-4" ∷ []) (
              map
                (λ item.
                  el "Link"
                    (computed "key" item.href
                      ∷ computed "href" item.href
                      ∷ cls
                          "group rounded-xl border border-white/10 bg-white/[0.02] p-5 transition-colors hover:border-sky-400/30 hover:bg-white/[0.04]"
                      ∷ [])
                    ((el "h3" (cls "text-sm font-semibold text-foreground" ∷ [])
                        ((text item.title) ∷ []))
                      ∷ (el "p" (cls "mt-2 text-sm leading-6 text-muted-foreground" ∷ [])
                          ((text item.description) ∷ []))
                      ∷ (el "span"
                          (cls
                              "mt-3 inline-flex items-center gap-1 text-xs font-medium text-sky-400"
                            ∷ [])
                          ((txt "Open")
                            ∷ (el "ArrowRight"
                                (cls "h-3 w-3 transition-transform group-hover:translate-x-0.5"
                                  ∷ [])
                                [])
                            ∷ []))
                      ∷ []))
                next_steps))
          ∷ []))
      ∷ [])
