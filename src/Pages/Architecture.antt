-- ===== src/Pages/Architecture.antt =====
-- website/app/architecture/page.tsx.
use kube_cell.Common.{Bool, false, List, [], ◌∷◌, Option, none, some, Text, String, units, map, ◌+◌}
use kube_cell.Dom.{
  computed, Node, text, digits, el, fragment_of, txt, str, cls, map_index, ClassNames,
}
use kube_cell.Components.JsonLd.{json_ld}
use kube_cell.Json.{Json, json_string, json_array, json_object, elements, members}
use kube_cell.Site.Config.{Resolve, with_addresses}
use kube_cell.Components.Section.{section, section_heading, page_hero, center, left}
use kube_cell.Components.CodeBlock.{code_block}
use kube_cell.Highlight.Types.{Language}
use kube_cell.Site.Metadata.{Metadata, build_metadata, article}
use kube_cell.Home.ArchitectureBeam.{architecture_beam, technical}
use kube_cell.Architecture.RepoTree.{repo_tree}
use kube_cell.Architecture.OrbitingStack.{orbiting_stack}
use kube_cell.Architecture.FailureModes.{failure_modes}
use kube_cell.Site.Content.{pinned_stack}

unfoldable pub metadata : Metadata
unfolding build_metadata
metadata = build_metadata (record {
  title = units "Architecture and technical principles";
  description =
      units
        "How KubeCell works under the hood: the three layers, how a request becomes changes on a host, how state stays trustworthy, and which component versions each release validates.";
  path = units "/architecture/";
  keywords = some (
      units "KubeCell architecture"
      ∷ units "OCM ManifestWork"
      ∷ units "K3k shared mode"
      ∷ units "Kubernetes operator design"
      ∷ units "TopoLVM reflection"
      ∷ units "pinned Kubernetes versions"
      ∷ []);
  type = some article;
})

pub record Layer : Type 0 where
  pub icon : String
  pub name : Text
  pub summary : Text
  pub points : List Text

abbrev pub layers : List Layer
layers =
    record {
      icon = "CloudCog";
      name = units "Management cluster";
      summary = units "Single-node K3s. Desired state only; it runs no tenant workloads.";
      points =
          units "OCM Hub: ManagedCluster, ManifestWork, ManagedServiceAccount, cluster proxy."
          ∷ units "KubeCell management controller plus the CRD admission webhook."
          ∷ units "Four CRDs: Cell, VirtualNodeClass, VirtualClusterPlan, VirtualCluster."
          ∷ units "Installer orchestrates release bundles; charts never mutate OCM objects."
          ∷ [];
    }
    ∷ record {
      icon = "Server";
      name = units "Cell host cluster";
      summary = units "One Cell equals one OCM ManagedCluster equals one physical host cluster.";
      points =
          units "OCM klusterlet and work-agent apply the two works per child cluster."
          ∷ units "K3k v1.2.0 in shared mode creates and reflects child clusters."
          ∷ units "Host webhook admits platform Pods and rejects tenant host access."
          ∷ units "Pinned baseline: CNI/CoreDNS, TopoLVM, Traefik, vendor Device Plugins."
          ∷ [];
    }
    ∷ record {
      icon = "Boxes";
      name = units "VirtualCluster (child)";
      summary = units "A real K3s control plane with one logical node named kubelet.";
      points =
          units "Independent API server and data volume, stored on TopoLVM."
          ∷ units "Child admin kubeconfig always published to a management-plane Secret."
          ∷ units "Child Pods and PVCs are reflected to the host namespace one-to-one."
          ∷ units "Scale vertically by switching quota tiers, never horizontally."
          ∷ [];
    }
    ∷ []

pub record FlowStep : Type 0 where
  pub title : Text
  pub body : Text

abbrev pub control_flow : List FlowStep
control_flow =
    record {
      title = units "Resolve and snapshot";
      body =
          units
            "The controller resolves the Cell and VirtualNodeClass, then writes an immutable resolution snapshot to status.resolved. All steady-state rendering reads only from that snapshot.";
    }
    ∷ record {
      title = units "Re-run feasibility";
      body =
          units
            "Before creating anything, the controller re-runs the same feasibility evaluation the Plan used. A non-Accepted conclusion stops the flow and the report lands in status.feasibilityChecks.";
    }
    ∷ record {
      title = units "Create the Foundation Work";
      body =
          units
            "Host namespace with policy labels, ResourceQuota, LimitRange, NetworkPolicy, and port-forward RBAC. Only when the work is Applied does the next step start.";
    }
    ∷ record {
      title = units "Create the Instance Work";
      body =
          units
            "A K3k Cluster in Shared mode plus the K3k VirtualClusterPolicy. The work-agent on the host executes it; K3k then creates the server Pod, data volume, and NodePort Service.";
    }
    ∷ record {
      title = units "Publish credentials";
      body =
          units
            "The controller reads the K3k kubeconfig Secret through the OCM proxy, rewrites the server address to the auto-discovered host address and NodePort, then republishes it in the management plane.";
    }
    ∷ record {
      title = units "Converge and report";
      body =
          units
            "Steady-state reconciliation compares observed host state with the snapshot. Drift, stale inventory, and version mismatches surface as conditions — never as silent fixes.";
    }
    ∷ []

pub record FreshnessCheck : Type 0 where
  pub check : Text
  pub meaning : Text
  pub stale_risk : Text

abbrev pub freshness_checks : List FreshnessCheck
freshness_checks =
    record {
      check = units "OCM Joined";
      meaning = units "The klusterlet on the host registered successfully.";
      stale_risk = units "Registration can be revoked or replaced.";
    }
    ∷ record {
      check = units "OCM Available";
      meaning = units "The hub considers the cluster reachable.";
      stale_risk = units "Observed to go stale without updates; not trusted alone.";
    }
    ∷ record {
      check = units "managed-cluster-lease fresh";
      meaning = units "The host Lease keeps renewing.";
      stale_risk = units "The decisive liveness signal for a Cell.";
    }
    ∷ record {
      check = units "InventoryFresh";
      meaning = units "Inventory and storage observations are recent and from a live source.";
      stale_risk = units "When false, no feasibility conclusion is trustworthy.";
    }
    ∷ []

abbrev pub non_goals : List Text
non_goals =
    units
      "No custom scheduler, CNI, CSI, device allocator, or host agent: standard Kubernetes behavior applies."
    ∷ units "No automatic cross-Cell placement, migration, or failover in the first version."
    ∷ units
        "No strong-adversary multi-tenancy: developer credentials are child-cluster admin kubeconfigs."
    ∷ units
        "port-forward and automatic physical data reclamation are outside the locked commitments."
    ∷ []

abbrev pub foundation_work : Text
foundation_work =
    units
      "# Foundation Work (excerpt) — host namespace and guardrails\napiVersion: work.open-cluster-management.io/v1\nkind: ManifestWork\nmetadata:\n  name: kubecell-<vc>-foundation\n  namespace: <managed-cluster-namespace>\nspec:\n  workload:\n    manifests:\n    - apiVersion: v1\n      kind: Namespace\n      metadata:\n        name: <vc>-ns\n        labels:\n          kubecell.io/virtualcluster: <vc>\n          kubecell.io/managed: \"true\"\n    - apiVersion: v1\n      kind: ResourceQuota      # hard requests/limits from the class\n    - apiVersion: v1\n      kind: LimitRange         # default 100m / 256Mi\n    - apiVersion: networking.k8s.io/v1\n      kind: NetworkPolicy      # deny by default\n# Instance Work (excerpt) — K3k shared-mode cluster\n    - apiVersion: k3k.io/v1beta1\n      kind: Cluster\n      spec:\n        mode: shared\n        servers: 1\n        agents: 1\n        persistence:\n          type: dynamic\n          storageClassName: topolvm-provisioner"

unfoldable pub article_ld_of : (Text → Text) → Json
article_ld_of address = json_object (
    members (
      (units "@context", json_string (units "https://schema.org"))
      ∷ (units "@type", json_string (units "TechArticle"))
      ∷ (units "headline", json_string (units "KubeCell architecture and technical principles"))
      ∷ (
        units "description",
        json_string (
            units
              "Three-layer architecture, OCM ManifestWork control flow, snapshot reconciliation, endpoint discovery, and pinned upstream versions."),
      )
      ∷ (units "url", json_string (address (units "/architecture/")))
      ∷ (
        units "author",
        json_object (
            members (
              (units "@type", json_string (units "Organization"))
              ∷ (units "name", json_string (units "KubeCell"))
              ∷ [])),
      )
      ∷ (
        units "about",
        json_array (
            elements (
              json_string (units "Kubernetes")
              ∷ json_string (units "K3k")
              ∷ json_string (units "Open Cluster Management")
              ∷ json_string (units "TopoLVM")
              ∷ [])),
      )
      ∷ (units "proficiencyLevel", json_string (units "Expert"))
      ∷ []))

unfoldable pub article_ld : Resolve → Option Text → Option Json
unfolding with_addresses article_ld_of
article_ld resolve env = with_addresses resolve env (units "/architecture/" ∷ []) article_ld_of

pub record IngressCard : Type 0 where
  pub title : Text
  pub body : Text

abbrev pub ingress_cards : List IngressCard
ingress_cards =
    record {
      title = units "You choose the Ingress name";
      body =
          units
            "Create a standard Ingress with class kubecell in the child cluster. The hostname derives as <ingress>.<vc>.<apps-suffix>; the suffix is a platform constant.";
    }
    ∷ record {
      title = units "Endpoints stay in sync";
      body =
          units
            "The controller mirrors child Endpoints into the host namespace and strips port names that would break routing.";
    }
    ∷ record {
      title = units "TLS is an operator decision";
      body =
          units
            "Certificates are issued at the host ingress. The design keeps v1 to HTTP(S) rather than promising protocols it cannot keep.";
    }
    ∷ []

-- `copied` is the state of the copy buttons, `address` gives the values of
-- `absoluteUrl`.
module _ (cn : ClassNames) where
  unfoldable pub architecture_page : Bool → (Text → Text) → Node
  unfolding page_hero section section_heading json_ld architecture_beam repo_tree orbiting_stack
      failure_modes pinned_stack
  architecture_page copied address = fragment_of (
      (json_ld (article_ld_of address))
      ∷ (page_hero (units "Technical principles") (txt "Small control plane, honest data plane")
          (txt
            "KubeCell is deliberately boring: a controller that writes two OCM ManifestWorks per child cluster, reads hosts only through the OCM proxy, and treats upstream projects as the real implementation.")
          ((el "Badge" (str "variant" "outline" ∷ cls "border-sky-400/30 text-sky-300" ∷ [])
              ((txt "For platform engineers and reviewers") ∷ []))
            ∷ (el "Link"
                (str "href" "https://github.com/taosher/KubeCell/blob/main/technical-design.md"
                  ∷ str "target" "_blank"
                  ∷ str "rel" "noreferrer"
                  ∷ cls
                      "inline-flex items-center gap-1.5 text-sm font-medium text-sky-400 transition-colors hover:text-sky-300"
                  ∷ [])
                ((txt "Read the full design document")
                  ∷ (el "ArrowRight" (cls "h-3.5 w-3.5" ∷ []) [])
                  ∷ []))
            ∷ []))
      ∷ (section cn none none (
          (section_heading cn (some (units "Three layers"))
            (txt "One management cluster, many Cells, many child clusters")
            (some (
              txt
                "Each layer has a single job, and boundaries are enforced by the API surface rather than by convention."))
            center none)
          ∷ (el "div" (cls "mt-12 grid gap-4 lg:grid-cols-3" ∷ []) (
              map
                (λ layer.
                  el "div"
                    (computed "key" layer.name
                      ∷ cls "rounded-2xl border border-white/10 bg-white/[0.02] p-6"
                      ∷ [])
                    ((el "span"
                        (cls
                            "inline-flex h-11 w-11 items-center justify-center rounded-xl border border-sky-400/20 bg-sky-500/10 text-sky-300"
                          ∷ [])
                        ((el layer.icon (cls "h-5 w-5" ∷ []) []) ∷ []))
                      ∷ (el "h3" (cls "mt-4 text-lg font-semibold text-foreground" ∷ [])
                          ((text layer.name) ∷ []))
                      ∷ (el "p" (cls "mt-2 text-sm leading-6 text-muted-foreground" ∷ [])
                          ((text layer.summary) ∷ []))
                      ∷ (el "ul" (cls "mt-4 space-y-2" ∷ []) (
                          map
                            (λ point.
                              el "li"
                                (computed "key" point
                                  ∷ cls "flex gap-2 text-sm leading-6 text-foreground/80"
                                  ∷ [])
                                ((el "span"
                                    (cls "mt-2 h-1.5 w-1.5 shrink-0 rounded-full bg-sky-400/80"
                                      ∷ [])
                                    [])
                                  ∷ (text point)
                                  ∷ []))
                            layer.points))
                      ∷ []))
                layers))
          ∷ (el "div" (cls "mt-12" ∷ []) ((architecture_beam cn none (some technical)) ∷ []))
          ∷ []))
      ∷ (section cn none (some (units "border-y border-white/5 bg-white/[0.015]")) (
          (section_heading cn (some (units "Control flow"))
            (txt "What happens between kubectl apply and a kubeconfig")
            (some (
              txt
                "Every step is idempotent and safe to retry. Failed work is retried by re-rendering from the snapshot, not by patching host state in place."))
            center none)
          ∷ (el "div" (cls "mt-12 grid gap-8 lg:grid-cols-[1.1fr_0.9fr] lg:gap-14" ∷ []) (
              (el "ol" (cls "relative space-y-8 border-l border-white/10 pl-6" ∷ []) (
                map_index
                  (λ step index. el "li" (computed "key" step.title ∷ cls "relative" ∷ []) (
                    (el "span"
                      (cls
                          "absolute -left-[31px] flex h-6 w-6 items-center justify-center rounded-full border border-sky-400/30 bg-[#070c17] font-mono text-[10px] text-sky-300"
                        ∷ [])
                      ((digits (index + 1)) ∷ []))
                    ∷ (el "h3" (cls "text-base font-semibold text-foreground" ∷ [])
                        ((text step.title) ∷ []))
                    ∷ (el "p" (cls "mt-1.5 text-sm leading-6 text-muted-foreground" ∷ [])
                        ((text step.body) ∷ []))
                    ∷ []))
                  control_flow))
              ∷ (code_block cn copied foundation_work (some Language.yaml)
                  (some (units "manifestwork-excerpt.yaml")) none false none)
              ∷ []))
          ∷ []))
      ∷ (section cn none none (
          (el "div" (cls "grid gap-12 lg:grid-cols-2 lg:items-start lg:gap-16" ∷ []) (
            (el "div" [] (
              (section_heading cn (some (units "Truth and freshness"))
                (txt "A Cell is Ready only when its observations are alive")
                (some (
                  txt
                    "KubeCell separates “the object exists” from “the system is healthy”. Lease freshness and inventory freshness are first-class conditions, because stale data is the most common cause of wrong capacity decisions."))
                left none)
              ∷ (el "div" (cls "mt-8 overflow-hidden rounded-2xl border border-white/10" ∷ []) (
                  (el "table" (cls "w-full border-collapse text-left text-sm" ∷ []) (
                    (el "thead" [] (
                      (el "tr" (cls "bg-white/[0.03]" ∷ []) (
                        (el "th" (cls "px-4 py-3 font-medium text-muted-foreground" ∷ [])
                          ((txt "Signal") ∷ []))
                        ∷ (el "th" (cls "px-4 py-3 font-medium text-muted-foreground" ∷ [])
                            ((txt "Means") ∷ []))
                        ∷ (el "th" (cls "px-4 py-3 font-medium text-muted-foreground" ∷ [])
                            ((txt "Failure mode") ∷ []))
                        ∷ []))
                      ∷ []))
                    ∷ (el "tbody" [] (
                        map
                          (λ row.
                            el "tr" (computed "key" row.check ∷ cls "border-t border-white/5" ∷ [])
                              ((el "td" (cls "px-4 py-3 font-mono text-xs text-sky-300" ∷ [])
                                  ((text row.check) ∷ []))
                                ∷ (el "td" (cls "px-4 py-3 text-muted-foreground" ∷ [])
                                    ((text row.meaning) ∷ []))
                                ∷ (el "td" (cls "px-4 py-3 text-muted-foreground" ∷ [])
                                    ((text row.stale_risk) ∷ []))
                                ∷ []))
                          freshness_checks))
                    ∷ []))
                  ∷ []))
              ∷ []))
            ∷ (el "div" (cls "space-y-6" ∷ []) (
                (section_heading cn (some (units "Endpoint discovery"))
                  (txt "Addresses are observed, never configured")
                  (some (
                    txt
                      "The API address is not part of spec. The controller reads Ready host nodes through the proxy, takes the InternalIP of the first node by name, and records it in status."))
                  left none)
                ∷ (code_block cn copied
                    (units
                      "$ kubectl -n kubecell-system get vc child-dev \\\n    -o jsonpath='{.status.endpoint}'\n{\"address\":\"10.0.12.7\",\"port\":31234}\n\n# When the address changes, kubeconfigs are republished\n# automatically. Clients pick up the new file; no CR edit.")
                    (some Language.bash) (some (units "endpoint.sh")) none false none)
                ∷ (el "p" (cls "text-sm leading-6 text-muted-foreground" ∷ []) (
                    (txt
                      "Exposure method, port range, and proxy identity are platform constants. That is why they are absent from the CRDs: there is exactly one safe value, so exposing them would only create drift.")
                    ∷ []))
                ∷ []))
            ∷ []))
          ∷ []))
      ∷ (section cn none none (
          (el "div" (cls "grid gap-12 lg:grid-cols-[1fr_1fr] lg:items-center lg:gap-16" ∷ []) (
            (el "div" [] (
              (section_heading cn (some (units "Code layout"))
                (txt "Where to look in the repository")
                (some (
                  txt
                    "The design is small enough to hold in your head: four CRDs in api/, one controller in internal/, two charts, and an installer that owns the release bundle."))
                left none)
              ∷ (el "p" (cls "mt-6 text-sm leading-7 text-muted-foreground" ∷ []) (
                  (txt
                    "Controllers never install host software; the installer does, at pinned versions. Charts never mutate OCM objects. Those two rules explain most of the directory structure.")
                  ∷ []))
              ∷ []))
            ∷ repo_tree
            ∷ []))
          ∷ []))
      ∷ (section cn none (some (units "border-y border-white/5 bg-white/[0.015]")) (
          (el "div" (cls "grid gap-12 lg:grid-cols-[0.9fr_1.1fr] lg:items-center lg:gap-16" ∷ []) (
            (el "div" [] (
              (section_heading cn (some (units "Built on upstream"))
                (txt "Upstream does the work; KubeCell owns the contract")
                (some (
                  txt
                    "K3k, K3s, TopoLVM, Traefik, and OCM are used through their public APIs and never patched. You get upstream fixes and behavior directly, and every release can pin and verify the exact combination it was tested with."))
                left none)
              ∷ (el "ul" (cls "mt-8 space-y-3" ∷ []) (
                  map
                    (λ item.
                      el "li"
                        (computed "key" item
                          ∷ cls "flex gap-2.5 text-sm leading-6 text-muted-foreground"
                          ∷ [])
                        ((el "span"
                            (cls "mt-2 h-1.5 w-1.5 shrink-0 rounded-full bg-violet-400/80" ∷ []) [])
                          ∷ (text item)
                          ∷ []))
                    non_goals))
              ∷ []))
            ∷ orbiting_stack
            ∷ []))
          ∷ (el "div" (cls "mt-16" ∷ []) (
              (section_heading cn (some (units "Locked combination"))
                (txt "Versions that move together")
                (some (txt "Changing any of these requires a release, not a CR edit.")) left none)
              ∷ (el "div" (cls "mt-8 overflow-hidden rounded-2xl border border-white/10" ∷ []) (
                  (el "div" (cls "overflow-x-auto" ∷ []) (
                    (el "table" (cls "w-full min-w-[640px] border-collapse text-left text-sm" ∷ [])
                      ((el "thead" [] (
                          (el "tr" (cls "bg-white/[0.03]" ∷ []) (
                            (el "th" (cls "px-5 py-3.5 font-medium text-muted-foreground" ∷ [])
                              ((txt "Component") ∷ []))
                            ∷ (el "th" (cls "px-5 py-3.5 font-medium text-muted-foreground" ∷ [])
                                ((txt "Version") ∷ []))
                            ∷ (el "th" (cls "px-5 py-3.5 font-medium text-muted-foreground" ∷ [])
                                ((txt "Notes") ∷ []))
                            ∷ []))
                          ∷ []))
                        ∷ (el "tbody" [] (
                            map
                              (λ row.
                                el "tr"
                                  (computed "key" row.component
                                    ∷ cls "border-t border-white/5"
                                    ∷ [])
                                  ((el "td" (cls "px-5 py-3.5 font-medium text-foreground" ∷ [])
                                      ((text row.component) ∷ []))
                                    ∷ (el "td"
                                        (cls "px-5 py-3.5 font-mono text-xs text-sky-300" ∷ [])
                                        ((text row.version) ∷ []))
                                    ∷ (el "td" (cls "px-5 py-3.5 text-muted-foreground" ∷ [])
                                        ((text row.note) ∷ []))
                                    ∷ []))
                              pinned_stack))
                        ∷ []))
                    ∷ []))
                  ∷ []))
              ∷ []))
          ∷ []))
      ∷ (section cn none none (
          (section_heading cn (some (units "Ingress and north-south"))
            (txt "One host ingress, predictable hostnames")
            (some (
              txt
                "Host Traefik owns ports 80 and 443 for the whole host. It watches only VirtualCluster namespaces that carry the KubeCell label, so one noisy tenant cannot claim the edge."))
            center none)
          ∷ (el "div" (cls "mt-10 grid gap-4 md:grid-cols-3" ∷ []) (
              map
                (λ card.
                  el "div"
                    (computed "key" card.title
                      ∷ cls "rounded-2xl border border-white/10 bg-white/[0.02] p-6"
                      ∷ [])
                    ((el "Layers" (cls "h-5 w-5 text-sky-300" ∷ []) [])
                      ∷ (el "h3" (cls "mt-3 text-base font-semibold text-foreground" ∷ [])
                          ((text card.title) ∷ []))
                      ∷ (el "p" (cls "mt-2 text-sm leading-6 text-muted-foreground" ∷ [])
                          ((text card.body) ∷ []))
                      ∷ []))
                ingress_cards))
          ∷ (el "div" (cls "mt-10" ∷ []) (failure_modes ∷ []))
          ∷ []))
      ∷ [])
