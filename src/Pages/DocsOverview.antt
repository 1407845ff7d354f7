-- ===== src/Pages/DocsOverview.antt =====
-- website/app/docs/page.tsx.
use kube_cell.Common.{[], ◌∷◌, none, some, units, map}
use kube_cell.Dom.{computed, Node, text, el, txt, str, cls, when_given, ClassNames}
use kube_cell.Components.Callout.{callout, prose, warning}
use kube_cell.Nav.{docs_flat}
use kube_cell.Home.ArchitectureBeam.{architecture_beam}
use kube_cell.Site.Metadata.{Metadata, build_metadata}

unfoldable pub metadata : Metadata
unfolding build_metadata
metadata = build_metadata (record {
  title = units "Documentation overview";
  description =
      units
        "KubeCell documentation overview: what the operator is, the four CRDs, the three-layer architecture, design principles, and where to go next.";
  path = units "/docs/";
  keywords =
      some
        (units "KubeCell documentation" ∷ units "VirtualCluster" ∷ units "KubeCell concepts" ∷ []);
  type = none;
})

module _ (cn : ClassNames) where
  unfoldable pub docs_overview_page : Node
  unfolding prose callout docs_flat architecture_beam
  docs_overview_page =
      prose cn
        ((el "p" (cls "font-mono text-xs uppercase tracking-[0.2em] text-sky-400" ∷ [])
            ((txt "Documentation") ∷ []))
          ∷ (el "h1"
              (cls "mt-3 text-3xl font-semibold tracking-tight text-foreground sm:text-4xl" ∷ [])
              ((txt "KubeCell overview") ∷ []))
          ∷ (el "p" (cls "mt-5 text-base leading-7 text-muted-foreground" ∷ []) (
              (txt "KubeCell gives every developer an isolated Kubernetes cluster — a")
              ∷ (txt " ")
              ∷ (el "strong" [] ((txt "VirtualCluster") ∷ []))
              ∷ (txt
                  " — on shared physical hosts. A single management cluster holds the desired state; each Cell host runs the workloads. Developers get a standard, kubectl-compatible K3s API with hard CPU, memory, and GPU quotas, persistent storage, and automatically published kubeconfigs.")
              ∷ []))
          ∷ (callout cn (some warning) (some (units "Pre-release software"))
              ((txt "KubeCell is under active development and the APIs are ")
                ∷ (el "code" [] ((txt "v1alpha1") ∷ []))
                ∷ (txt ". Do not use it for production workloads yet.")
                ∷ [])
              none)
          ∷ (el "h2" (str "id" "what-it-is" ∷ []) ((txt "What KubeCell is") ∷ []))
          ∷ (el "ul" [] (
              (el "li" [] (
                (txt "A small operator with exactly ")
                ∷ (el "strong" [] ((txt "four CRDs") ∷ []))
                ∷ (txt ": ")
                ∷ (el "code" [] ((txt "Cell") ∷ []))
                ∷ (txt ",")
                ∷ (txt " ")
                ∷ (el "code" [] ((txt "VirtualNodeClass") ∷ []))
                ∷ (txt ", ")
                ∷ (el "code" [] ((txt "VirtualClusterPlan") ∷ []))
                ∷ (txt ", and")
                ∷ (txt " ")
                ∷ (el "code" [] ((txt "VirtualCluster") ∷ []))
                ∷ (txt ".")
                ∷ []))
              ∷ (el "li" [] (
                  (txt
                    "A composition layer over upstream projects — K3s, K3k, TopoLVM, Traefik, and Open Cluster Management (OCM) — integrated through public APIs only.")
                  ∷ []))
              ∷ (el "li" [] (
                  (txt
                    "A quota and isolation system: every child cluster maps to a host namespace with")
                  ∷ (txt " ")
                  ∷ (el "code" [] ((txt "ResourceQuota") ∷ []))
                  ∷ (txt ", ")
                  ∷ (el "code" [] ((txt "LimitRange") ∷ []))
                  ∷ (txt ", ")
                  ∷ (el "code" [] ((txt "NetworkPolicy") ∷ []))
                  ∷ (txt ", and admission rules that reject privileged workloads and ")
                  ∷ (el "code" [] ((txt "hostPath") ∷ []))
                  ∷ (txt " volumes.")
                  ∷ []))
              ∷ (el "li" [] (
                  (txt
                    "An inventory and feasibility system: Cells report live capacity, and Plans tell you whether a request can be satisfied ")
                  ∷ (el "em" [] ((txt "before") ∷ []))
                  ∷ (txt " anything is created.")
                  ∷ []))
              ∷ []))
          ∷ (el "h2" (str "id" "what-it-is-not" ∷ []) ((txt "What KubeCell is not") ∷ []))
          ∷ (el "ul" [] (
              (el "li" [] (
                (txt
                  "Not a second scheduler, device allocator, kubelet, CNI, CSI, or Device Plugin. Those stay upstream.")
                ∷ []))
              ∷ (el "li" [] (
                  (txt
                    "Not a namespace-with-labels product. A child cluster has its own API server, control plane, and data volume.")
                  ∷ []))
              ∷ (el "li" [] (
                  (txt
                    "Not a strong-adversary multi-tenancy boundary. Developer credentials are child-cluster admin kubeconfigs, which is a deliberate trusted-network trade-off.")
                  ∷ []))
              ∷ (el "li" [] (
                  (txt
                    "Not a horizontal autoscaler for child clusters: each child exposes exactly one logical node named ")
                  ∷ (el "code" [] ((txt "kubelet") ∷ []))
                  ∷ (txt ". You scale by switching quota tiers.")
                  ∷ []))
              ∷ []))
          ∷ (el "h2" (str "id" "mental-model" ∷ []) ((txt "The mental model in four objects") ∷ []))
          ∷ (el "div" (cls "not-prose my-6 overflow-hidden rounded-xl border border-white/10" ∷ [])
              ((el "table" (cls "w-full border-collapse text-left text-sm" ∷ []) (
                  (el "thead" [] (
                    (el "tr" (cls "bg-white/[0.03]" ∷ []) (
                      (el "th" (cls "px-4 py-3 font-medium text-muted-foreground" ∷ [])
                        ((txt "Object") ∷ []))
                      ∷ (el "th" (cls "px-4 py-3 font-medium text-muted-foreground" ∷ [])
                          ((txt "Scope") ∷ []))
                      ∷ (el "th" (cls "px-4 py-3 font-medium text-muted-foreground" ∷ [])
                          ((txt "You use it to…") ∷ []))
                      ∷ []))
                    ∷ []))
                  ∷ (el "tbody" (cls "text-muted-foreground" ∷ []) (
                      (el "tr" (cls "border-t border-white/5" ∷ []) (
                        (el "td" (cls "px-4 py-3 font-mono text-xs text-sky-300" ∷ [])
                          ((txt "Cell") ∷ []))
                        ∷ (el "td" (cls "px-4 py-3" ∷ []) ((txt "Namespaced") ∷ []))
                        ∷ (el "td" (cls "px-4 py-3" ∷ []) (
                            (txt "Bind one OCM ")
                            ∷ (el "code" [] ((txt "ManagedCluster") ∷ []))
                            ∷ (txt " to one machine profile. Generated from live discovery.")
                            ∷ []))
                        ∷ []))
                      ∷ (el "tr" (cls "border-t border-white/5" ∷ []) (
                          (el "td" (cls "px-4 py-3 font-mono text-xs text-sky-300" ∷ [])
                            ((txt "VirtualNodeClass") ∷ []))
                          ∷ (el "td" (cls "px-4 py-3" ∷ []) ((txt "Cluster-scoped") ∷ []))
                          ∷ (el "td" (cls "px-4 py-3" ∷ []) (
                              (txt
                                "Publish a quota tier: hard requests/limits per child cluster plus a storage class.")
                              ∷ []))
                          ∷ []))
                      ∷ (el "tr" (cls "border-t border-white/5" ∷ []) (
                          (el "td" (cls "px-4 py-3 font-mono text-xs text-sky-300" ∷ [])
                            ((txt "VirtualClusterPlan") ∷ []))
                          ∷ (el "td" (cls "px-4 py-3" ∷ []) ((txt "Namespaced") ∷ []))
                          ∷ (el "td" (cls "px-4 py-3" ∷ []) (
                              (txt "Check feasibility without side effects: ")
                              ∷ (el "code" [] ((txt "Accepted") ∷ []))
                              ∷ (txt ", ")
                              ∷ (el "code" [] ((txt "Rejected") ∷ []))
                              ∷ (txt ", or ")
                              ∷ (el "code" [] ((txt "Unknown") ∷ []))
                              ∷ (txt ".")
                              ∷ []))
                          ∷ []))
                      ∷ (el "tr" (cls "border-t border-white/5" ∷ []) (
                          (el "td" (cls "px-4 py-3 font-mono text-xs text-sky-300" ∷ [])
                            ((txt "VirtualCluster") ∷ []))
                          ∷ (el "td" (cls "px-4 py-3" ∷ []) ((txt "Namespaced") ∷ []))
                          ∷ (el "td" (cls "px-4 py-3" ∷ []) (
                              (txt
                                "Create the child cluster and receive a published admin kubeconfig in status.")
                              ∷ []))
                          ∷ []))
                      ∷ []))
                  ∷ []))
                ∷ []))
          ∷ (el "h2" (str "id" "architecture" ∷ []) ((txt "Architecture at a glance") ∷ []))
          ∷ (el "p" [] (
              (txt
                "Three layers, one direction of control. The management plane declares intent; the host executes it; the child cluster is the product.")
              ∷ []))
          ∷ (el "div" (cls "not-prose my-8" ∷ []) ((architecture_beam cn none none) ∷ []))
          ∷ (el "p" [] (
              (txt
                "The controller never connects to a host directly. It applies two declarative work objects per cluster through the hub and reads host state back the same way. See")
              ∷ (txt " ")
              ∷ (el "Link" (str "href" "/architecture/" ∷ []) ((txt "technical principles") ∷ []))
              ∷ (txt " for the full control flow.")
              ∷ []))
          ∷ (el "h2" (str "id" "principles" ∷ [])
              ((txt "Design principles worth remembering") ∷ []))
          ∷ (el "ul" [] (
              (el "li" [] (
                (el "strong" [] ((txt "Intent-only specs.") ∷ []))
                ∷ (txt
                    " Human-authored manifests declare which Cell and which quota tier. Versions, ports, reservations, and security baselines are platform constants and never enter the CRDs.")
                ∷ []))
              ∷ (el "li" [] (
                  (el "strong" [] ((txt "One safe value means no field.") ∷ []))
                  ∷ (txt
                      " If a setting has exactly one safe value, exposing it would only create drift, so it stays out of the API.")
                  ∷ []))
              ∷ (el "li" [] (
                  (el "strong" [] ((txt "Observed state beats declared state.") ∷ []))
                  ∷ (txt
                      " Allocatable capacity reported by the host is the source of truth; declarations are upper bounds and never inflate inventory.")
                  ∷ []))
              ∷ (el "li" [] (
                  (el "strong" [] ((txt "Reconciliation is idempotent.") ∷ []))
                  ∷ (txt
                      " Failed steps are retried by re-rendering from the resolution snapshot, never by patching host state in place.")
                  ∷ []))
              ∷ (el "li" [] (
                  (el "strong" [] ((txt "Built on upstream components.") ∷ []))
                  ∷ (txt
                      " K3s, K3k, TopoLVM, and OCM are used unmodified through their public APIs, so upstream fixes and behavior apply directly.")
                  ∷ []))
              ∷ []))
          ∷ (el "h2" (str "id" "who" ∷ []) ((txt "Who should read what") ∷ []))
          ∷ (el "div" (cls "not-prose mt-6 grid gap-3 sm:grid-cols-2" ∷ []) (
              map
                (λ item.
                  el "Link"
                    (computed "key" item.href
                      ∷ computed "href" item.href
                      ∷ cls
                          "group rounded-xl border border-white/10 bg-white/[0.02] p-4 transition-colors hover:border-sky-400/30"
                      ∷ [])
                    ((el "p" (cls "text-sm font-medium text-foreground" ∷ [])
                        ((text item.title) ∷ []))
                      ∷ (el "p" (cls "mt-1 text-sm leading-6 text-muted-foreground" ∷ [])
                          ((when_given item.description (λ description. text description)) ∷ []))
                      ∷ (el "span"
                          (cls
                              "mt-2 inline-flex items-center gap-1 text-xs font-medium text-sky-400"
                            ∷ [])
                          ((txt "Open")
                            ∷ (el "ArrowRight"
                                (cls "h-3 w-3 transition-transform group-hover:translate-x-0.5"
                                  ∷ [])
                                [])
                            ∷ []))
                      ∷ []))
                docs_flat))
          ∷ (el "h2" (str "id" "status" ∷ []) ((txt "Project status") ∷ []))
          ∷ (el "p" [] (
              (txt
                "The API shape, controllers, installer, and the first end-to-end loop are implemented. The feature matrix (PVC, networking, hostPath rejection, interaction, cascading deletion, accelerator allocation, Ingress) and release hardening are in progress. Track the work in")
              ∷ (txt " ")
              ∷ (el "a" (str "href" "https://github.com/taosher/KubeCell/blob/main/TODOS.md" ∷ [])
                  ((txt "TODOS.md") ∷ []))
              ∷ (txt " and report bugs through GitHub issues.")
              ∷ []))
          ∷ (el "div" (cls "not-prose mt-4 flex flex-wrap gap-2" ∷ []) (
              (el "Badge"
                (str "variant" "outline" ∷ cls "border-emerald-400/30 text-emerald-300" ∷ [])
                ((txt "API shape frozen") ∷ []))
              ∷ (el "Badge" (str "variant" "outline" ∷ cls "border-sky-400/30 text-sky-300" ∷ [])
                  ((txt "Controllers implemented") ∷ []))
              ∷ (el "Badge"
                  (str "variant" "outline" ∷ cls "border-amber-400/30 text-amber-300" ∷ [])
                  ((txt "Release hardening in progress") ∷ []))
              ∷ []))
          ∷ [])
        none
