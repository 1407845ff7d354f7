-- ===== src/Pages/UseCases.antt =====
-- website/app/use-cases/page.tsx.
use kube_cell.Common.{
  Bool, true, false, List, [], ◌∷◌, ◌++◌, Option, none, some, Text, units, map, if◌then◌else◌,
  decimal, pad_start, ends_with, ◌+◌, ◌*◌,
}
use kube_cell.Dom.{
  computed, number, flag, Node, text, el, fragment_of, txt, str, cls, map_index, ClassNames,
}
use kube_cell.Components.JsonLd.{json_ld}
use kube_cell.Json.{Json, json_string, json_number, json_array, json_object, elements, members}
use kube_cell.Site.Config.{Resolve, with_addresses}
use kube_cell.Components.Section.{section, page_hero}
use kube_cell.Components.CodeBlock.{code_block}
use kube_cell.Highlight.Types.{Language}
use kube_cell.Site.Metadata.{Metadata, build_metadata}

unfoldable pub metadata : Metadata
unfolding build_metadata
metadata = build_metadata (record {
  title = units "Use cases";
  description =
      units
        "Five concrete ways teams use KubeCell: accelerator sandboxes, ephemeral test environments, training labs, edge field labs, and platform landlord mode on shared hardware.";
  path = units "/use-cases/";
  keywords = some (
      units "Kubernetes accelerator sandbox"
      ∷ units "ephemeral Kubernetes environments"
      ∷ units "GPU cluster for developers"
      ∷ units "training lab Kubernetes"
      ∷ units "platform landlord mode"
      ∷ []);
  type = none;
})

pub record UseCase : Type 0 where
  pub id : Text
  pub title : Text
  pub summary : Text
  pub audience : Text
  pub situation : Text
  pub kubecell : Text
  pub outcome : List Text
  pub code : Text
  pub filename : Text

unfoldable pub use_cases : List UseCase
use_cases =
    record {
      id = units "accelerator-sandboxes";
      title = units "Accelerator sandboxes for AI teams";
      summary =
          units
            "Every researcher gets a full Kubernetes API with two dedicated 910B cards — no partitioning tricks, no shared queue.";
      audience = units "Research and ML platform teams";
      situation =
          units
            "Your lab runs one or two powerful ARM64 hosts with eight accelerators each. Today, jobs land in a shared namespace: one runaway workload can starve everyone, and nobody can install an operator or a CRD without stepping on another team's cluster.";
      kubecell =
          units
            "Publish a quota tier with two whole cards, then hand out clusters. Each one is a real K3s control plane, so teams install whatever operators they need inside their own API server while the host still enforces the quota.";
      outcome =
          units "Each cluster gets whole cards; two clusters never share one accelerator."
          ∷ units
              "Capacity shown in status is what the hardware actually reports, not what was requested."
          ∷ units
              "Quota usage is measured on the host, so the limits you set are the limits that apply."
          ∷ units "Works with any accelerator your cluster advertises, NVIDIA or Ascend alike."
          ∷ [];
      code =
          units
            "apiVersion: kubecell.io/v1alpha1\nkind: VirtualNodeClass\nmetadata:\n  name: ascend-910b-small\nspec:\n  entitlement:\n    workloadHard:\n      requests.cpu: \"4\"\n      limits.cpu: \"4\"\n      requests.memory: 8Gi\n      limits.memory: 8Gi\n      requests.huawei.com/Ascend910: \"2\"\n      limits.huawei.com/Ascend910: \"2\"\n  storageClassName: topolvm-provisioner";
      filename = units "class-ascend-910b-small.yaml";
    }
    ∷ record {
      id = units "ephemeral-environments";
      title = units "Ephemeral environments per pull request";
      summary =
          units
            "Spin a child cluster for an integration run, hand over a kubeconfig, then delete it and let the finalizer clean the host.";
      audience = units "Teams with heavy integration tests";
      situation =
          units
            "Integration tests need cluster-scoped objects: CRDs, webhooks, storage classes, and a control plane that can be restarted. A shared namespace cannot provide that, and provisioning a whole managed cluster per test is too slow and too expensive.";
      kubecell =
          units
            "A cluster is created in seconds once images are warm, and deletion is complete: KubeCell removes the cluster, its credentials, and everything it created on the host. The kubeconfig is always published to one Secret, so CI can pick it up with a single command.";
      outcome =
          units "One cluster per branch: apply a manifest, wait for Ready, run tests, delete."
          ∷ units "An admin kubeconfig is published every time — no manual hand-off."
          ∷ units "Predictable cleanup, including PVCs, with Retain as the storage safety net."
          ∷ units
              "Dry-run checks let CI fail fast when the host is out of capacity instead of hanging."
          ∷ [];
      code =
          units
            "apiVersion: kubecell.io/v1alpha1\nkind: VirtualClusterPlan\nmetadata:\n  name: pr-1842-plan\n  namespace: kubecell-system\nspec:\n  cellRef: {name: cell1}\n  classRef: {name: ci-medium}\n---\n# CI waits for status.decision, then creates the real VirtualCluster\napiVersion: kubecell.io/v1alpha1\nkind: VirtualCluster\nmetadata:\n  name: pr-1842\n  namespace: kubecell-system\nspec:\n  cellRef: {name: cell1}\n  classRef: {name: ci-medium}";
      filename = units "ci-virtualcluster.yaml";
    }
    ∷ record {
      id = units "training-labs";
      title = units "Workshops and training labs";
      summary =
          units
            "Forty students, one host, forty clusters. Quota keeps the class fair and no one can break another student's control plane.";
      audience = units "Training providers and universities";
      situation =
          units
            "Students need admin rights to learn Kubernetes: install operators, break things, and fix them. Namespace-only classrooms cannot teach cluster-scoped concepts, and per-student VMs are expensive and slow to prepare.";
      kubecell =
          units
            "Create one small quota tier and issue a cluster per student. Each cluster shows a single node, so every kubectl tutorial works verbatim, and the host keeps a misbehaving cluster from affecting the rest of the class.";
      outcome =
          units "Admin kubeconfigs without giving anyone access to the host."
          ∷ units "Hard CPU and memory caps per student, enforced by Kubernetes, not by convention."
          ∷ units
              "Students cannot break the host: privileged Pods and hostPath volumes are rejected."
          ∷ units "Teardown is one delete per student cluster."
          ∷ [];
      code =
          units
            "# Create the whole class from a small loop\nfor student in $(seq 1 40); do\n  cat <<EOF | kubectl apply -f -\napiVersion: kubecell.io/v1alpha1\nkind: VirtualCluster\nmetadata:\n  name: student-$student\n  namespace: kubecell-system\nspec:\n  cellRef: {name: lab-cell}\n  classRef: {name: workshop-small}\nEOF\ndone";
      filename = units "classroom.sh";
    }
    ∷ record {
      id = units "field-labs";
      title = units "Edge and field labs";
      summary =
          units
            "Hardware lives where the hardware is. Hosts connect outbound to one management plane — no inbound tunnel per site.";
      audience = units "Ops teams running remote sites";
      situation =
          units
            "Your accelerators and data live at a remote site behind NAT. You still need one place to declare changes, watch capacity, and hand out developer clusters — without opening inbound management paths to every machine.";
      kubecell =
          units
            "Hosts connect outbound to the management cluster. Every change is applied through that one channel and every observation comes back the same way, so there is no inbound tunnel to maintain and no agent to babysit.";
      outcome =
          units "One management plane for many sites, with each site isolated on its own hosts."
          ∷ units "No inbound SSH or API access to hosts required for day-to-day operation."
          ∷ units
              "Sites that stop reporting are visible immediately, before anyone tries to create a cluster."
          ∷ units
              "Endpoints are discovered and republished, so kubeconfigs keep working after address changes."
          ∷ [];
      code =
          units
            "kubectl -n kubecell-system get cells -o custom-columns=\\\nNAME:.metadata.name,PHASE:.status.phase,JOINED:.status.managedCluster.joined,\\\nLEASE:.status.managedCluster.leaseFresh,NODES:.status.nodes[*].name";
      filename = units "fleet-status.sh";
    }
    ∷ record {
      id = units "platform-landlord";
      title = units "Landlord mode for platform teams";
      summary =
          units
            "Declare Cells and quota tiers once; product teams self-serve child clusters inside the envelope you defined.";
      audience = units "Internal platform teams";
      situation =
          units
            "Requests for clusters arrive faster than your team can provision hardware. You need the platform to own capacity and guardrails while product teams self-serve inside them — without negotiating every request in chat.";
      kubecell =
          units
            "The platform publishes hosts with their observed capacity and a small set of quota tiers. Teams check a request with a dry run, then create the cluster. Every step is visible as a Kubernetes resource with status, so capacity conversations happen against real data.";
      outcome =
          units "Dry runs before commitment: accepted, rejected with reasons, or unknown."
          ∷ units "Capacity accounting per host: requested, pending, and available estimates."
          ∷ units "Bindings are immutable, so capacity cannot silently move between hosts."
          ∷ units "The same tested versions everywhere, upgraded through releases."
          ∷ [];
      code =
          units
            "# Tenants can inspect headroom before asking for anything\nkubectl -n kubecell-system get cell cell1 \\\n  -o jsonpath='{range .status.inventory[*]}{.resource}{\"\\t\"}{.availableEstimate}{\"\\n\"}{end}'";
      filename = units "capacity.sh";
    }
    ∷ []

unfoldable pub item_list_ld_of : (Text → Text) → Json
unfolding use_cases
item_list_ld_of address = json_object (
    members (
      (units "@context", json_string (units "https://schema.org"))
      ∷ (units "@type", json_string (units "ItemList"))
      ∷ (units "name", json_string (units "KubeCell use cases"))
      ∷ (
        units "itemListElement",
        json_array (
            elements (
              map_index
                (λ use_case index. json_object (
                  members (
                    (units "@type", json_string (units "ListItem"))
                    ∷ (units "position", json_number (index + 1))
                    ∷ (units "name", json_string use_case.title)
                    ∷ (units "description", json_string use_case.summary)
                    ∷ (units "url", json_string (address (units "/use-cases/#" ++ use_case.id)))
                    ∷ [])))
                use_cases)),
      )
      ∷ []))

unfoldable pub item_list_ld : Resolve → Option Text → Option Json
unfolding with_addresses item_list_ld_of use_cases
item_list_ld resolve env =
    with_addresses resolve env
      (map (λ (use_case : UseCase). units "/use-cases/#" ++ use_case.id) use_cases) item_list_ld_of

-- `copied` is the state of the copy buttons, `address` gives the values of
-- `absoluteUrl`.
module _ (cn : ClassNames) where
  unfoldable pub use_cases_page : Bool → (Text → Text) → Node
  unfolding use_cases page_hero section json_ld
  use_cases_page copied address = fragment_of (
      (json_ld (item_list_ld_of address))
      ∷ (page_hero (units "Use cases") (txt "Shared bare metal, private Kubernetes")
          (txt
            "KubeCell is for teams whose hardware is too expensive to duplicate and whose workloads are too real for namespaces alone. Here are five patterns we designed for.")
          [])
      ∷ (section cn none none (
          (el "div" (cls "space-y-20" ∷ []) (
            map_index
              (λ use_case index.
                el "BlurFade"
                  (computed "key" use_case.id
                    ∷ number "delay" (index * 4) 2
                    ∷ flag "inView" true
                    ∷ [])
                  ((el "article" (computed "id" use_case.id ∷ cls "scroll-mt-24" ∷ []) (
                      (el "div" (cls "flex flex-wrap items-center gap-3" ∷ []) (
                        (el "Badge"
                          (str "variant" "outline" ∷ cls "border-sky-400/30 text-sky-300" ∷ [])
                          ((text use_case.audience) ∷ []))
                        ∷ (el "span" (cls "font-mono text-xs text-muted-foreground" ∷ [])
                            ((text ((pad_start (decimal (index + 1)) 2 b'0'))) ∷ []))
                        ∷ []))
                      ∷ (el "h2"
                          (cls
                              "mt-4 text-2xl font-semibold tracking-tight text-foreground sm:text-3xl"
                            ∷ [])
                          ((text use_case.title) ∷ []))
                      ∷ (el "p"
                          (cls
                              "mt-3 max-w-3xl text-pretty text-base leading-7 text-muted-foreground"
                            ∷ [])
                          ((text use_case.summary) ∷ []))
                      ∷ (el "div"
                          (cls "mt-8 grid gap-8 lg:grid-cols-[1.05fr_0.95fr] lg:gap-12" ∷ [])
                          ((el "div" (cls "space-y-6" ∷ []) (
                              (el "div" [] (
                                (el "h3"
                                  (cls
                                      "text-sm font-semibold uppercase tracking-wider text-muted-foreground"
                                    ∷ [])
                                  ((txt "The situation") ∷ []))
                                ∷ (el "p" (cls "mt-2 text-sm leading-7 text-foreground/85" ∷ [])
                                    ((text use_case.situation) ∷ []))
                                ∷ []))
                              ∷ (el "div" [] (
                                  (el "h3"
                                    (cls
                                        "text-sm font-semibold uppercase tracking-wider text-muted-foreground"
                                      ∷ [])
                                    ((txt "With KubeCell") ∷ []))
                                  ∷ (el "p" (cls "mt-2 text-sm leading-7 text-foreground/85" ∷ [])
                                      ((text use_case.kubecell) ∷ []))
                                  ∷ []))
                              ∷ (el "div" [] (
                                  (el "h3"
                                    (cls
                                        "text-sm font-semibold uppercase tracking-wider text-muted-foreground"
                                      ∷ [])
                                    ((txt "What you get") ∷ []))
                                  ∷ (el "ul" (cls "mt-2 space-y-2" ∷ []) (
                                      map
                                        (λ item.
                                          el "li"
                                            (computed "key" item
                                              ∷ cls
                                                  "flex gap-2 text-sm leading-6 text-muted-foreground"
                                              ∷ [])
                                            ((el "span"
                                                (cls
                                                    "mt-2 h-1.5 w-1.5 shrink-0 rounded-full bg-sky-400"
                                                  ∷ [])
                                                [])
                                              ∷ (text item)
                                              ∷ []))
                                        use_case.outcome))
                                  ∷ []))
                              ∷ []))
                            ∷ (code_block cn copied use_case.code
                                (some (
                                  if ends_with use_case.filename (units ".sh")
                                  then Language.bash
                                  else Language.yaml))
                                (some (use_case.filename)) none false none)
                            ∷ []))
                      ∷ []))
                    ∷ []))
              use_cases))
          ∷ (el "div"
              (cls "mt-20 rounded-2xl border border-white/10 bg-white/[0.02] p-8 text-center" ∷ [])
              ((el "h2" (cls "text-xl font-semibold text-foreground" ∷ [])
                  ((txt "Do not see your scenario?") ∷ []))
                ∷ (el "p"
                    (cls "mx-auto mt-3 max-w-2xl text-sm leading-6 text-muted-foreground" ∷ [])
                    ((txt
                        "If it needs a real Kubernetes API on hardware you already own, it is probably a fit. Read the technical design or open an issue with your constraints.")
                      ∷ []))
                ∷ (el "div"
                    (cls "mt-6 flex flex-wrap items-center justify-center gap-4 text-sm font-medium"
                      ∷ [])
                    ((el "Link"
                        (str "href" "/architecture/" ∷ cls "text-sky-400 hover:text-sky-300" ∷ [])
                        ((txt "Technical principles") ∷ []))
                      ∷ (el "span" (cls "text-white/10" ∷ []) ((txt "|") ∷ []))
                      ∷ (el "Link"
                          (str "href" "/quickstart/" ∷ cls "text-sky-400 hover:text-sky-300" ∷ [])
                          ((txt "Quickstart") ∷ []))
                      ∷ (el "span" (cls "text-white/10" ∷ []) ((txt "|") ∷ []))
                      ∷ (el "a"
                          (str "href" "https://github.com/taosher/KubeCell/issues"
                            ∷ str "target" "_blank"
                            ∷ str "rel" "noreferrer"
                            ∷ cls "inline-flex items-center gap-1 text-sky-400 hover:text-sky-300"
                            ∷ [])
                          ((txt "Open an issue")
                            ∷ (el "ArrowRight" (cls "h-3.5 w-3.5" ∷ []) [])
                            ∷ []))
                      ∷ []))
                ∷ []))
          ∷ []))
      ∷ [])
