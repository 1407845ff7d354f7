-- ===== src/Pages/Concepts.antt =====
-- website/app/docs/concepts/page.tsx.
use kube_cell.Common.{Bool, false, [], ◌∷◌, none, some, Text, units, map}
use kube_cell.Dom.{computed, Node, text, el, txt, str, cls, ClassNames}
use kube_cell.Components.Callout.{callout, prose, info, warning}
use kube_cell.Components.CodeBlock.{code_block}
use kube_cell.Highlight.Types.{Language}
use kube_cell.Site.Metadata.{Metadata, build_metadata}

unfoldable pub metadata : Metadata
unfolding build_metadata
metadata = build_metadata (record {
  title = units "Core concepts";
  description =
      units
        "KubeCell core concepts explained: the four resources you work with, quota tiers, how a cluster maps to a host, and what happens when you create, resize, or delete one.";
  path = units "/docs/concepts/";
  keywords = some (
      units "KubeCell Cell"
      ∷ units "VirtualNodeClass"
      ∷ units "VirtualClusterPlan"
      ∷ units "logical node kubelet"
      ∷ units "reflected Pod"
      ∷ units "resolution snapshot"
      ∷ []);
  type = none;
})

abbrev pub cell_example : Text
cell_example =
    units
      "apiVersion: kubecell.io/v1alpha1\nkind: Cell\nmetadata:\n  name: cell1\n  namespace: kubecell-system\nspec:\n  managedClusterRef:\n    name: cell1              # bound OCM ManagedCluster; immutable once resolved\n  machineProfile:\n    name: ascend-910b        # single machine profile per Cell\n    devices:\n    - name: ascend\n      resourceName: huawei.com/Ascend910  # exact host extended-resource key"

abbrev pub class_example : Text
class_example =
    units
      "apiVersion: kubecell.io/v1alpha1\nkind: VirtualNodeClass\nmetadata:\n  name: ascend-910b-small    # cluster-scoped; the tier name tenants reference\nspec:\n  entitlement:\n    workloadHard:\n      requests.cpu: \"4\"\n      limits.cpu: \"4\"\n      requests.memory: 8Gi\n      limits.memory: 8Gi\n      requests.huawei.com/Ascend910: \"2\"\n      limits.huawei.com/Ascend910: \"2\"\n  storageClassName: topolvm-provisioner"

abbrev pub plan_example : Text
plan_example =
    units
      "apiVersion: kubecell.io/v1alpha1\nkind: VirtualClusterPlan\nmetadata:\n  name: child-dev-plan\n  namespace: kubecell-system\nspec:\n  cellRef: {name: cell1}\n  classRef: {name: ascend-910b-small}\nstatus:\n  decision: Accepted          # Accepted | Rejected | Unknown\n  expiresAt: \"2026-09-22T10:15:00Z\"   # stale conclusions are void\n  checks: []                  # per-resource findings when Rejected"

-- `copied` is the state of the copy buttons.
module _ (cn : ClassNames) where
  unfoldable pub concepts_page : Bool → Node
  unfolding prose callout
  concepts_page copied =
      prose cn
        ((el "p" (cls "font-mono text-xs uppercase tracking-[0.2em] text-sky-400" ∷ [])
            ((txt "Introduction") ∷ []))
          ∷ (el "h1"
              (cls "mt-3 text-3xl font-semibold tracking-tight text-foreground sm:text-4xl" ∷ [])
              ((txt "Core concepts") ∷ []))
          ∷ (el "p" (cls "mt-5 text-base leading-7 text-muted-foreground" ∷ []) (
              (txt
                "Six ideas carry the whole design. If you understand these, the CRDs and the operational behavior will feel predictable.")
              ∷ []))
          ∷ (el "h2" (str "id" "cell" ∷ []) ((txt "Cell") ∷ []))
          ∷ (el "p" [] (
              (txt "A ")
              ∷ (el "strong" [] ((txt "Cell") ∷ []))
              ∷ (txt " is the unit of physical capacity: one OCM ")
              ∷ (el "code" [] ((txt "ManagedCluster") ∷ []))
              ∷ (txt " ")
              ∷ (txt
                  "bound to one host cluster, plus a single machine profile describing what the machines offer. It is the failure and isolation boundary. The spec has exactly two groups:")
              ∷ []))
          ∷ (el "ul" [] (
              (el "li" [] (
                (el "code" [] ((txt "managedClusterRef.name") ∷ []))
                ∷ (txt " — the bound OCM ")
                ∷ (el "code" [] ((txt "ManagedCluster") ∷ []))
                ∷ (txt
                    ". Once any VirtualCluster has resolved this Cell, the reference is immutable.")
                ∷ []))
              ∷ (el "li" [] (
                  (el "code" [] ((txt "machineProfile") ∷ []))
                  ∷ (txt
                      " — a name and an inline device contract. Multiple physical machines with the same profile all count as inventory; there is no separate")
                  ∷ (txt " ")
                  ∷ (el "code" [] ((txt "MachineProfile") ∷ []))
                  ∷ (txt " CRD.")
                  ∷ []))
              ∷ []))
          ∷ (el "p" [] (
              (txt "Everything else lives in ")
              ∷ (el "code" [] ((txt "status") ∷ []))
              ∷ (txt
                  ", filled in by the controller: phase, conditions, managed cluster observations, provider readiness, per-node capacity and allocatable, aggregated inventory, storage inventory, and allocated NodePorts. Never hand-write status.")
              ∷ []))
          ∷ (code_block cn copied cell_example (some Language.yaml) (some (units "cell.yaml"))
              (some (units "not-prose my-6")) false none)
          ∷ (callout cn (some info) (some (units "Device contract, not reservation"))
              ((txt
                  "The device list is a declarative authorization. The observed allocatable of the resource key is the source of fact. If a Cell declares eight cards but the host only allocates four, the effective capacity is four and a ")
                ∷ (el "code" [] ((txt "CapabilityMismatch") ∷ []))
                ∷ (txt " condition is reported.")
                ∷ [])
              none)
          ∷ (el "h2" (str "id" "virtualnodeclass" ∷ []) ((txt "VirtualNodeClass") ∷ []))
          ∷ (el "p" [] (
              (txt "A ")
              ∷ (el "strong" [] ((txt "VirtualNodeClass") ∷ []))
              ∷ (txt
                  " is a cluster-scoped quota tier. One name maps to one entitlement: the hard requests and limits applied to every child cluster that uses it, plus the storage class for child volumes.")
              ∷ []))
          ∷ (el "ul" [] (
              (el "li" [] (
                (txt "The class is applied as a Kubernetes ")
                ∷ (el "code" [] ((txt "ResourceQuota") ∷ []))
                ∷ (txt
                    " in the child cluster's host namespace, so enforcement happens on the host, not in the child cluster.")
                ∷ []))
              ∷ (el "li" [] (
                  (txt
                    "CPU, memory, and extended resources (accelerators) all follow the same pattern: request equals limit, integer values for devices.")
                  ∷ []))
              ∷ (el "li" [] (
                  (txt
                    "Classes are platform-owned. Tenants reference them but never edit them; changing a tier means changing the class, which is a platform action.")
                  ∷ []))
              ∷ []))
          ∷ (code_block cn copied class_example (some Language.yaml)
              (some (units "virtualnodeclass.yaml")) (some (units "not-prose my-6")) false none)
          ∷ (el "h2" (str "id" "virtualclusterplan" ∷ []) ((txt "VirtualClusterPlan") ∷ []))
          ∷ (el "p" [] (
              (txt "A ")
              ∷ (el "strong" [] ((txt "VirtualClusterPlan") ∷ []))
              ∷ (txt
                  " is a side-effect-free preflight. Its spec is isomorphic to a VirtualCluster, so you can copy a plan file into a creation request once it is accepted. The controller evaluates the request against the current Cell inventory and reports exactly one decision:")
              ∷ []))
          ∷ (el "div" (cls "not-prose my-6 overflow-hidden rounded-xl border border-white/10" ∷ [])
              ((el "table" (cls "w-full border-collapse text-left text-sm" ∷ []) (
                  (el "thead" [] (
                    (el "tr" (cls "bg-white/[0.03]" ∷ []) (
                      (el "th" (cls "px-4 py-3 font-medium text-muted-foreground" ∷ [])
                        ((txt "Decision") ∷ []))
                      ∷ (el "th" (cls "px-4 py-3 font-medium text-muted-foreground" ∷ [])
                          ((txt "Meaning") ∷ []))
                      ∷ (el "th" (cls "px-4 py-3 font-medium text-muted-foreground" ∷ [])
                          ((txt "What to do") ∷ []))
                      ∷ []))
                    ∷ []))
                  ∷ (el "tbody" (cls "text-muted-foreground" ∷ []) (
                      (el "tr" (cls "border-t border-white/5" ∷ []) (
                        (el "td" (cls "px-4 py-3 font-mono text-xs text-emerald-300" ∷ [])
                          ((txt "Accepted") ∷ []))
                        ∷ (el "td" (cls "px-4 py-3" ∷ [])
                            ((txt "Buildable under the current inventory snapshot.") ∷ []))
                        ∷ (el "td" (cls "px-4 py-3" ∷ [])
                            ((txt "Create the VirtualCluster (rechecked at creation time).") ∷ []))
                        ∷ []))
                      ∷ (el "tr" (cls "border-t border-white/5" ∷ []) (
                          (el "td" (cls "px-4 py-3 font-mono text-xs text-rose-300" ∷ [])
                            ((txt "Rejected") ∷ []))
                          ∷ (el "td" (cls "px-4 py-3" ∷ []) (
                              (txt
                                "A required resource is missing: CPU, memory, devices, storage, or ports.")
                              ∷ []))
                          ∷ (el "td" (cls "px-4 py-3" ∷ []) (
                              (txt "Read ")
                              ∷ (el "code" [] ((txt "checks") ∷ []))
                              ∷ (txt " and adjust the request or Cell.")
                              ∷ []))
                          ∷ []))
                      ∷ (el "tr" (cls "border-t border-white/5" ∷ []) (
                          (el "td" (cls "px-4 py-3 font-mono text-xs text-amber-300" ∷ [])
                            ((txt "Unknown") ∷ []))
                          ∷ (el "td" (cls "px-4 py-3" ∷ [])
                              ((txt "Inventory is unavailable or stale.") ∷ []))
                          ∷ (el "td" (cls "px-4 py-3" ∷ [])
                              ((txt "Fix freshness, then retry once observations recover.") ∷ []))
                          ∷ []))
                      ∷ []))
                  ∷ []))
                ∷ []))
          ∷ (callout cn (some warning) (some (units "Acceptance is not reservation"))
              ((txt "Plans evaluate once and never refresh periodically. ")
                ∷ (el "code" [] ((txt "expiresAt") ∷ []))
                ∷ (txt
                    " marks when the conclusion becomes void, and the controller re-runs feasibility at real creation time. If someone else consumed capacity in between, creation is blocked and the recheck report appears in ")
                ∷ (el "code" [] ((txt "status.feasibilityChecks") ∷ []))
                ∷ (txt ".")
                ∷ [])
              none)
          ∷ (code_block cn copied plan_example (some Language.yaml) (some (units "plan.yaml"))
              (some (units "not-prose my-6")) false none)
          ∷ (el "h2" (str "id" "virtualcluster" ∷ []) ((txt "VirtualCluster") ∷ []))
          ∷ (el "p" [] (
              (txt "A ")
              ∷ (el "strong" [] ((txt "VirtualCluster") ∷ []))
              ∷ (txt
                  " is the product. Eight lines of spec: which Cell, which class. The controller does the rest:")
              ∷ []))
          ∷ (el "ol" [] (
              (el "li" [] (
                (txt "Resolves the Cell and class, then writes an immutable resolution snapshot.")
                ∷ []))
              ∷ (el "li" []
                  ((txt "Re-runs feasibility and stops on a non-accepted conclusion.") ∷ []))
              ∷ (el "li" [] (
                  (txt
                    "Creates the Foundation Work, then the Instance Work once the first is Applied.")
                  ∷ []))
              ∷ (el "li" [] (
                  (txt
                    "Discovers the child API address from host nodes and publishes the admin kubeconfig.")
                  ∷ []))
              ∷ (el "li" [] (
                  (txt
                    "Reports readiness, quota usage, and per-reflected-Pod observations in status.")
                  ∷ []))
              ∷ []))
          ∷ (el "p" [] (
              (txt
                "Key fields are immutable: the Cell reference and class reference cannot be silently changed. To move a workload to different hardware, create a new child cluster. To change the size of a child cluster, switch to a different class.")
              ∷ []))
          ∷ (el "h2" (str "id" "logical-node" ∷ []) ((txt "The logical node") ∷ []))
          ∷ (el "p" [] (
              (txt "Every child cluster exposes exactly one node, always named ")
              ∷ (el "code" [] ((txt "kubelet") ∷ []))
              ∷ (txt
                  ". It is an entitlement view, not a physical machine. This is why there are no horizontal fields — no node count, node pools, or replicas — and why DaemonSet-style semantics are unsupported.")
              ∷ []))
          ∷ (code_block cn copied
              (units
                "$ kubectl --kubeconfig child-dev.yaml get nodes\nNAME      STATUS   ROLES    AGE   VERSION\nkubelet   Ready    <none>   42s   v1.34.2+k3s1")
              (some Language.bash) (some (units "nodes.sh")) (some (units "not-prose my-6")) false
              none)
          ∷ (el "h2" (str "id" "reflected-pod" ∷ []) ((txt "Reflected Pods and PVCs") ∷ []))
          ∷ (el "p" [] (
              (txt "K3k mirrors child-cluster Pods and PVCs into the child's host namespace. A")
              ∷ (txt " ")
              ∷ (el "strong" [] ((txt "reflected Pod") ∷ []))
              ∷ (txt
                  " is a real host Pod with identical resource requests, so the host scheduler places it and the namespace quota accounts for it. The same is true for storage: a child PVC becomes a host PVC backed by TopoLVM.")
              ∷ []))
          ∷ (el "ul" [] (
              (el "li" [] (
                (txt
                  "Scheduling decisions stay in Kubernetes — there is no second scheduler to keep in sync.")
                ∷ []))
              ∷ (el "li" [] (
                  (el "code" [] ((txt "hostPath") ∷ []))
                  ∷ (txt
                      " volumes are rejected at admission with a replacement hint pointing to the storage class.")
                  ∷ []))
              ∷ (el "li" [] (
                  (txt
                    "Accelerator requests must use the identical extended-resource key in the child and on the host.")
                  ∷ []))
              ∷ []))
          ∷ (el "h2" (str "id" "works" ∷ []) ((txt "Foundation Work and Instance Work") ∷ []))
          ∷ (el "p" [] (
              (txt "The controller renders exactly two OCM ")
              ∷ (el "code" [] ((txt "ManifestWork") ∷ []))
              ∷ (txt
                  " objects per child cluster. The split is intentional: guardrails first, workload second.")
              ∷ []))
          ∷ (el "div" (cls "not-prose my-6 grid gap-4 sm:grid-cols-2" ∷ []) (
              (el "div" (cls "rounded-xl border border-white/10 bg-white/[0.02] p-5" ∷ []) (
                (el "p" (cls "text-sm font-semibold text-foreground" ∷ [])
                  ((txt "Foundation Work") ∷ []))
                ∷ (el "ul" (cls "mt-3 space-y-2 text-sm leading-6 text-muted-foreground" ∷ []) (
                    (el "li" [] ((txt "Host namespace with policy labels and annotations") ∷ []))
                    ∷ (el "li" [] (
                        (el "code" [] ((txt "ResourceQuota") ∷ []))
                        ∷ (txt " from the class entitlement")
                        ∷ []))
                    ∷ (el "li" [] (
                        (el "code" [] ((txt "LimitRange") ∷ []))
                        ∷ (txt " with 100m CPU / 256Mi memory defaults")
                        ∷ []))
                    ∷ (el "li" [] (
                        (el "code" [] ((txt "NetworkPolicy") ∷ []))
                        ∷ (txt " denying cross-namespace traffic")
                        ∷ []))
                    ∷ (el "li" [] ((txt "Port-forward RBAC for the child cluster") ∷ []))
                    ∷ []))
                ∷ []))
              ∷ (el "div" (cls "rounded-xl border border-white/10 bg-white/[0.02] p-5" ∷ []) (
                  (el "p" (cls "text-sm font-semibold text-foreground" ∷ [])
                    ((txt "Instance Work") ∷ []))
                  ∷ (el "ul" (cls "mt-3 space-y-2 text-sm leading-6 text-muted-foreground" ∷ []) (
                      (el "li" [] (
                        (txt "K3k ")
                        ∷ (el "code" [] ((txt "Cluster") ∷ []))
                        ∷ (txt " in Shared mode")
                        ∷ []))
                      ∷ (el "li" [] ((txt "K3k VirtualClusterPolicy") ∷ []))
                      ∷ (el "li" []
                          ((txt "Server Pod, data volume, NodePort Service created by K3k") ∷ []))
                      ∷ (el "li" []
                          ((txt "Child admin kubeconfig Secret read back through the proxy") ∷ []))
                      ∷ []))
                  ∷ []))
              ∷ []))
          ∷ (el "h2" (str "id" "snapshot" ∷ []) ((txt "Resolution snapshot") ∷ []))
          ∷ (el "p" [] (
              (el "code" [] ((txt "VirtualCluster.status.resolved") ∷ []))
              ∷ (txt
                  " is the sole basis for steady-state rendering. It records the resolved Cell, class entitlement, storage class, and the platform constants that applied at resolution time. If a class changes later, existing child clusters keep the snapshot they were built from until the operator acts — that is how KubeCell avoids surprise in-place mutations.")
              ∷ []))
          ∷ (el "h2" (str "id" "constants" ∷ []) ((txt "Platform constants vs. API fields") ∷ []))
          ∷ (el "p" [] (
              (txt
                "A field belongs in a CRD only if it has more than one safe value. Everything else is a platform constant owned by the release:")
              ∷ []))
          ∷ (el "div" (cls "not-prose my-6 overflow-hidden rounded-xl border border-white/10" ∷ [])
              ((el "table" (cls "w-full border-collapse text-left text-sm" ∷ []) (
                  (el "thead" [] (
                    (el "tr" (cls "bg-white/[0.03]" ∷ []) (
                      (el "th" (cls "px-4 py-3 font-medium text-muted-foreground" ∷ [])
                        ((txt "Concern") ∷ []))
                      ∷ (el "th" (cls "px-4 py-3 font-medium text-muted-foreground" ∷ [])
                          ((txt "Where it lives") ∷ []))
                      ∷ []))
                    ∷ []))
                  ∷ (el "tbody" (cls "text-muted-foreground" ∷ []) (
                      (el "tr" (cls "border-t border-white/5" ∷ []) (
                        (el "td" (cls "px-4 py-3" ∷ []) ((txt "K3s, K3k, OCM versions") ∷ []))
                        ∷ (el "td" (cls "px-4 py-3" ∷ [])
                            ((txt "Release bundle, verified by the installer") ∷ []))
                        ∷ []))
                      ∷ (el "tr" (cls "border-t border-white/5" ∷ []) (
                          (el "td" (cls "px-4 py-3" ∷ [])
                            ((txt "API exposure method and port range") ∷ []))
                          ∷ (el "td" (cls "px-4 py-3" ∷ [])
                              ((txt "Platform constant; endpoint is discovered into status") ∷ []))
                          ∷ []))
                      ∷ (el "tr" (cls "border-t border-white/5" ∷ []) (
                          (el "td" (cls "px-4 py-3" ∷ []) ((txt "Ingress apps suffix") ∷ []))
                          ∷ (el "td" (cls "px-4 py-3" ∷ [])
                              ((txt "Platform-global fixed suffix") ∷ []))
                          ∷ []))
                      ∷ (el "tr" (cls "border-t border-white/5" ∷ []) (
                          (el "td" (cls "px-4 py-3" ∷ []) ((txt "Default container requests") ∷ []))
                          ∷ (el "td" (cls "px-4 py-3" ∷ [])
                              ((txt "LimitRange injected by the Foundation Work") ∷ []))
                          ∷ []))
                      ∷ (el "tr" (cls "border-t border-white/5" ∷ []) (
                          (el "td" (cls "px-4 py-3" ∷ []) ((txt "Quota tier") ∷ []))
                          ∷ (el "td" (cls "px-4 py-3" ∷ [])
                              ((txt "VirtualNodeClass (the one thing tenants choose)") ∷ []))
                          ∷ []))
                      ∷ []))
                  ∷ []))
                ∷ []))
          ∷ (el "h2" (str "id" "glossary" ∷ []) ((txt "Glossary") ∷ []))
          ∷ (el "div" (cls "not-prose my-6 overflow-hidden rounded-xl border border-white/10" ∷ [])
              ((el "table" (cls "w-full border-collapse text-left text-sm" ∷ []) (
                  (el "tbody" (cls "text-muted-foreground" ∷ []) (
                    map
                      (λ (row : Text × Text).
                        el "tr" (computed "key" row.0 ∷ cls "border-t border-white/5" ∷ []) (
                          (el "td" (cls "w-52 px-4 py-3 font-medium text-foreground" ∷ [])
                            ((text row.0) ∷ []))
                          ∷ (el "td" (cls "px-4 py-3" ∷ []) ((text row.1) ∷ []))
                          ∷ []))
                      ((
                        units "Management cluster",
                        units
                            "Single-node K3s carrying the OCM Hub and the KubeCell controller; runs no tenant workloads.",
                      )
                        ∷ (
                          units "ManagedCluster",
                          units "OCM registration object representing one Cell host one-to-one.",
                        )
                        ∷ (
                          units "Cell",
                          units
                              "One ManagedCluster plus its host K3s cluster; the failure and isolation boundary.",
                        )
                        ∷ (
                          units "VirtualNodeClass",
                          units "Cluster-scoped quota tier: hard-limit numbers plus storage class.",
                        )
                        ∷ (
                          units "VirtualCluster",
                          units "The child cluster instance; key fields immutable, rich status.",
                        )
                        ∷ (
                          units "VirtualClusterPlan",
                          units
                              "Side-effect-free preflight; one-shot evaluation, acceptance is not reservation.",
                        )
                        ∷ (
                          units "Logical child node",
                          units
                              "The single node in the child API, always named kubelet; a view, not a machine.",
                        )
                        ∷ (
                          units "Reflected Pod",
                          units
                              "Host Pod created by K3k mirroring a child Pod, with identical requests.",
                        )
                        ∷ (
                          units "Cluster proxy / MSA",
                          units
                              "OCM mechanisms; the only path by which the controller reads host APIs.",
                        )
                        ∷ (
                          units "appsSuffix",
                          units
                              "Platform-global external domain suffix; hostnames derive as <ingress>.<vc>.<suffix>.",
                        )
                        ∷ [])))
                  ∷ []))
                ∷ []))
          ∷ (el "p" [] (
              (txt "Next: ")
              ∷ (el "Link" (str "href" "/docs/installation/" ∷ [])
                  ((txt "install the management plane and onboard a host") ∷ []))
              ∷ (txt ", or jump straight to the")
              ∷ (txt " ")
              ∷ (el "Link" (str "href" "/docs/api-reference/" ∷ []) ((txt "API reference") ∷ []))
              ∷ (txt " for every field.")
              ∷ []))
          ∷ [])
        none
