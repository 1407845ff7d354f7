-- ===== src/Pages/ApiReference.antt =====
-- website/app/docs/api-reference/page.tsx.
use kube_cell.Common.{Bool, true, false, List, [], ◌∷◌, none, some, Text, units, map}
use kube_cell.Dom.{computed, number, flag, Node, text, el, txt, str, cls, ClassNames}
use kube_cell.Components.Callout.{callout, prose, info, warning}
use kube_cell.Components.CodeBlock.{code_block}
use kube_cell.Highlight.Types.{Language}
use kube_cell.Site.Metadata.{Metadata, build_metadata}

unfoldable pub metadata : Metadata
unfolding build_metadata
metadata = build_metadata (record {
  title = units "API reference";
  description =
      units
        "KubeCell CRD reference for kubecell.io/v1alpha1: Cell, VirtualNodeClass, VirtualClusterPlan, and VirtualCluster spec and status fields, immutability rules, and phases.";
  path = units "/docs/api-reference/";
  keywords = some (
      units "KubeCell API reference"
      ∷ units "kubecell.io/v1alpha1"
      ∷ units "Cell CRD"
      ∷ units "VirtualCluster CRD fields"
      ∷ units "VirtualNodeClass spec"
      ∷ []);
  type = none;
})

unfoldable pub field_table : List (Text × Text × Text × Text) → Node
field_table rows =
    el "div" (cls "not-prose my-6 overflow-hidden rounded-xl border border-white/10" ∷ []) (
      (el "div" (cls "overflow-x-auto" ∷ []) (
        (el "table" (cls "w-full min-w-[720px] border-collapse text-left text-sm" ∷ []) (
          (el "thead" [] (
            (el "tr" (cls "bg-white/[0.03]" ∷ []) (
              (el "th" (cls "px-4 py-3 font-medium text-muted-foreground" ∷ [])
                ((txt "Field") ∷ []))
              ∷ (el "th" (cls "px-4 py-3 font-medium text-muted-foreground" ∷ [])
                  ((txt "Type") ∷ []))
              ∷ (el "th" (cls "px-4 py-3 font-medium text-muted-foreground" ∷ [])
                  ((txt "Required") ∷ []))
              ∷ (el "th" (cls "px-4 py-3 font-medium text-muted-foreground" ∷ [])
                  ((txt "Notes") ∷ []))
              ∷ []))
            ∷ []))
          ∷ (el "tbody" (cls "text-muted-foreground" ∷ []) (
              map
                (λ row. el "tr" (computed "key" row.0 ∷ cls "border-t border-white/5" ∷ []) (
                  (el "td" (cls "px-4 py-3 font-mono text-xs text-sky-300" ∷ [])
                    ((text row.0) ∷ []))
                  ∷ (el "td" (cls "px-4 py-3 font-mono text-xs" ∷ []) ((text row.1) ∷ []))
                  ∷ (el "td" (cls "px-4 py-3" ∷ []) ((text row.2) ∷ []))
                  ∷ (el "td" (cls "px-4 py-3" ∷ []) ((text row.3) ∷ []))
                  ∷ []))
                rows))
          ∷ []))
        ∷ []))
      ∷ [])

-- `copied` is the state of the copy buttons.
module _ (cn : ClassNames) where
  unfoldable pub api_reference_page : Bool → Node
  unfolding prose callout field_table
  api_reference_page copied =
      prose cn
        ((el "p" (cls "font-mono text-xs uppercase tracking-[0.2em] text-sky-400" ∷ [])
            ((txt "Guides") ∷ []))
          ∷ (el "h1"
              (cls "mt-3 text-3xl font-semibold tracking-tight text-foreground sm:text-4xl" ∷ [])
              ((txt "API reference") ∷ []))
          ∷ (el "p" (cls "mt-5 text-base leading-7 text-muted-foreground" ∷ []) (
              (txt "KubeCell owns exactly four CRDs under ")
              ∷ (el "code" [] ((txt "kubecell.io/v1alpha1") ∷ []))
              ∷ (txt
                  ". All of them are desired-state or preflight APIs. Fields with a single safe value are platform constants and intentionally absent.")
              ∷ []))
          ∷ (el "div" (cls "not-prose my-6 overflow-hidden rounded-xl border border-white/10" ∷ [])
              ((el "table" (cls "w-full border-collapse text-left text-sm" ∷ []) (
                  (el "thead" [] (
                    (el "tr" (cls "bg-white/[0.03]" ∷ []) (
                      (el "th" (cls "px-4 py-3 font-medium text-muted-foreground" ∷ [])
                        ((txt "Kind") ∷ []))
                      ∷ (el "th" (cls "px-4 py-3 font-medium text-muted-foreground" ∷ [])
                          ((txt "Scope") ∷ []))
                      ∷ (el "th" (cls "px-4 py-3 font-medium text-muted-foreground" ∷ [])
                          ((txt "Short name") ∷ []))
                      ∷ (el "th" (cls "px-4 py-3 font-medium text-muted-foreground" ∷ [])
                          ((txt "Owner") ∷ []))
                      ∷ []))
                    ∷ []))
                  ∷ (el "tbody" (cls "text-muted-foreground" ∷ []) (
                      (el "tr" (cls "border-t border-white/5" ∷ []) (
                        (el "td" (cls "px-4 py-3 font-mono text-xs text-sky-300" ∷ [])
                          ((txt "Cell") ∷ []))
                        ∷ (el "td" (cls "px-4 py-3" ∷ []) ((txt "Namespaced") ∷ []))
                        ∷ (el "td" (cls "px-4 py-3 font-mono text-xs" ∷ []) ((txt "cell") ∷ []))
                        ∷ (el "td" (cls "px-4 py-3" ∷ []) ((txt "Platform") ∷ []))
                        ∷ []))
                      ∷ (el "tr" (cls "border-t border-white/5" ∷ []) (
                          (el "td" (cls "px-4 py-3 font-mono text-xs text-sky-300" ∷ [])
                            ((txt "VirtualNodeClass") ∷ []))
                          ∷ (el "td" (cls "px-4 py-3" ∷ []) ((txt "Cluster-scoped") ∷ []))
                          ∷ (el "td" (cls "px-4 py-3 font-mono text-xs" ∷ [])
                              ((txt "vnclass") ∷ []))
                          ∷ (el "td" (cls "px-4 py-3" ∷ []) ((txt "Platform") ∷ []))
                          ∷ []))
                      ∷ (el "tr" (cls "border-t border-white/5" ∷ []) (
                          (el "td" (cls "px-4 py-3 font-mono text-xs text-sky-300" ∷ [])
                            ((txt "VirtualClusterPlan") ∷ []))
                          ∷ (el "td" (cls "px-4 py-3" ∷ []) ((txt "Namespaced") ∷ []))
                          ∷ (el "td" (cls "px-4 py-3 font-mono text-xs" ∷ []) ((txt "vcp") ∷ []))
                          ∷ (el "td" (cls "px-4 py-3" ∷ []) ((txt "Tenant / platform") ∷ []))
                          ∷ []))
                      ∷ (el "tr" (cls "border-t border-white/5" ∷ []) (
                          (el "td" (cls "px-4 py-3 font-mono text-xs text-sky-300" ∷ [])
                            ((txt "VirtualCluster") ∷ []))
                          ∷ (el "td" (cls "px-4 py-3" ∷ []) ((txt "Namespaced") ∷ []))
                          ∷ (el "td" (cls "px-4 py-3 font-mono text-xs" ∷ []) ((txt "vc") ∷ []))
                          ∷ (el "td" (cls "px-4 py-3" ∷ []) ((txt "Tenant / platform") ∷ []))
                          ∷ []))
                      ∷ []))
                  ∷ []))
                ∷ []))
          ∷ (callout cn (some info) (some (units "Namespace"))
              ((txt "Cells must live in the same namespace as the controller, by convention")
                ∷ (txt " ")
                ∷ (el "code" [] ((txt "kubecell-system") ∷ []))
                ∷ (txt ".")
                ∷ [])
              none)
          ∷ (el "h2" (str "id" "cell" ∷ []) ((txt "Cell") ∷ []))
          ∷ (el "p" [] (
              (txt "The unit of physical capacity: one OCM ")
              ∷ (el "code" [] ((txt "ManagedCluster") ∷ []))
              ∷ (txt " bound to one machine profile.")
              ∷ []))
          ∷ (el "h3" [] ((txt "spec") ∷ []))
          ∷ (field_table (
              (
                units "managedClusterRef.name",
                units "string",
                units "Yes",
                units
                    "Bound OCM ManagedCluster name. Immutable once any VirtualCluster resolves the Cell.",
              )
              ∷ (
                units "machineProfile.name",
                units "string",
                units "Yes",
                units "Profile name; the placement selector. Immutable once resolved.",
              )
              ∷ (
                units "machineProfile.devices[]",
                units "array",
                units "No",
                units
                    "Inline accelerator contract. A single machine profile per Cell, not a list of profiles.",
              )
              ∷ (
                units "machineProfile.devices[].name",
                units "string",
                units "Yes",
                units "Stable identifier inside KubeCell, referenced by entitlement checks.",
              )
              ∷ (
                units "machineProfile.devices[].resourceName",
                units "string",
                units "Yes",
                units
                    "Exact host extended-resource key; must match character-for-character everywhere.",
              )
              ∷ []))
          ∷ (el "h3" [] ((txt "status (read-only)") ∷ []))
          ∷ (field_table (
              (
                units "observedGeneration",
                units "int64",
                units "—",
                units "Observed metadata.generation; distinguishes stale from fresh.",
              )
              ∷ (
                units "phase",
                units "enum",
                units "—",
                units "Pending | Provisioning | Ready | Degraded | Deleting | Failed.",
              )
              ∷ (
                units "conditions[]",
                units "[]Condition",
                units "—",
                units
                    "Joined, Available, ProviderReady, InventoryFresh, CapabilityMismatch, and others.",
              )
              ∷ (
                units "managedCluster{name,uid,joined,available,leaseFresh,leaseRenewTime}",
                units "object",
                units "—",
                units "OCM observation plus the decisive Lease freshness signal.",
              )
              ∷ (
                units
                    "provider{k3kVersion,namespaceReady,k3kCRDsReady,controllerReady,cniReady,topolvmReady}",
                units "object",
                units "—",
                units "Decomposition of host-baseline readiness.",
              )
              ∷ (
                units
                    "nodes[]{name,profile,ready,labelHash,capacity,allocatable,activeRequested,pendingRequested,readinessReasons,observedAt}",
                units "array",
                units "—",
                units "Per-node inventory and placement inputs.",
              )
              ∷ (
                units
                    "inventory{<resource>{capacity,allocatable,requested,pending,availableEstimate}}",
                units "map",
                units "—",
                units "Aggregated headroom per resource.",
              )
              ∷ (
                units
                    "storageInventory{provisioner,allocatedPV,perNode,freeCapacity,freeCapacityKnown,freeCapacitySource,fresh,observedAt}",
                units "object",
                units "—",
                units
                    "TopoLVM free space must come from lvmd; inferring from PV capacity is forbidden.",
              )
              ∷ (
                units "nodePorts{allocated,observedAt,fresh}",
                units "object",
                units "—",
                units "Allocated NodePorts for child APIs.",
              )
              ∷ []))
          ∷ (code_block cn copied
              (units
                "apiVersion: kubecell.io/v1alpha1\nkind: Cell\nmetadata:\n  name: cell1\n  namespace: kubecell-system\nspec:\n  managedClusterRef:\n    name: cell1\n  machineProfile:\n    name: ascend-910b\n    devices:\n    - name: ascend\n      resourceName: huawei.com/Ascend910\nstatus:\n  observedGeneration: 1\n  phase: Ready\n  managedCluster:\n    name: cell1\n    uid: \"b3f1...\"        # compared at UID level on deletion\n    joined: true\n    available: true       # not trustworthy alone\n    leaseFresh: true      # the true liveness criterion\n  provider:\n    k3kVersion: v1.2.0\n    namespaceReady: true\n    k3kCRDsReady: true\n    controllerReady: true\n    cniReady: true\n    topolvmReady: true")
              (some Language.yaml) (some (units "cell-full.yaml")) (some (units "not-prose my-6"))
              false none)
          ∷ (el "h2" (str "id" "virtualnodeclass" ∷ []) ((txt "VirtualNodeClass") ∷ []))
          ∷ (el "p" [] (
              (txt "Cluster-scoped quota tier: one name, one entitlement, one storage class.")
              ∷ []))
          ∷ (field_table (
              (
                units "entitlement.workloadHard",
                units "map[string]Quantity",
                units "Yes",
                units "Hard requests/limits applied as a ResourceQuota in the host namespace.",
              )
              ∷ (
                units "storageClassName",
                units "string",
                units "Yes",
                units
                    "Storage class used for child data volumes and child PVCs (typically topolvm-provisioner).",
              )
              ∷ []))
          ∷ (code_block cn copied
              (units
                "apiVersion: kubecell.io/v1alpha1\nkind: VirtualNodeClass\nmetadata:\n  name: ascend-910b-small\nspec:\n  entitlement:\n    workloadHard:\n      requests.cpu: \"4\"\n      limits.cpu: \"4\"\n      requests.memory: 8Gi\n      limits.memory: 8Gi\n      requests.huawei.com/Ascend910: \"2\"\n      limits.huawei.com/Ascend910: \"2\"\n  storageClassName: topolvm-provisioner")
              (some Language.yaml) (some (units "virtualnodeclass-full.yaml"))
              (some (units "not-prose my-6")) false none)
          ∷ (el "h2" (str "id" "virtualclusterplan" ∷ []) ((txt "VirtualClusterPlan") ∷ []))
          ∷ (el "p" [] (
              (txt
                "Side-effect-free preflight. The spec is isomorphic to a VirtualCluster so an accepted plan can be turned into a creation request without rewriting anything.")
              ∷ []))
          ∷ (field_table (
              (units "cellRef.name", units "string", units "Yes", units "Target Cell.")
              ∷ (units "classRef.name", units "string", units "Yes", units "Target quota tier.")
              ∷ (
                units "status.decision",
                units "enum",
                units "—",
                units
                    "Accepted | Rejected | Unknown. Evaluated once; never refreshed periodically.",
              )
              ∷ (
                units "status.expiresAt",
                units "time",
                units "—",
                units "When the conclusion becomes void.",
              )
              ∷ (
                units "status.checks[]",
                units "array",
                units "—",
                units "Per-resource findings, including the reason for Rejected.",
              )
              ∷ []))
          ∷ (callout cn (some warning) (some (units "Not a reservation"))
              ((el "Highlighter"
                  (str "color" "#38bdf8" ∷ number "strokeWidth" 15 1 ∷ flag "isView" true ∷ [])
                  ((txt "Acceptance never reserves capacity.") ∷ []))
                ∷ (txt " ")
                ∷ (txt
                    "The controller re-runs the same evaluation at real creation time and blocks on a non-accepted conclusion, writing the report to ")
                ∷ (el "code" [] ((txt "VirtualCluster.status.feasibilityChecks") ∷ []))
                ∷ (txt ".")
                ∷ [])
              none)
          ∷ (el "h2" (str "id" "virtualcluster" ∷ []) ((txt "VirtualCluster") ∷ []))
          ∷ (el "p" []
              ((txt "The child cluster instance: key fields immutable, rich status.") ∷ []))
          ∷ (el "h3" [] ((txt "spec") ∷ []))
          ∷ (field_table (
              (
                units "cellRef.name",
                units "string",
                units "Yes",
                units "Target Cell; immutable after creation.",
              )
              ∷ (
                units "classRef.name",
                units "string",
                units "Yes",
                units "Quota tier; immutable after creation.",
              )
              ∷ []))
          ∷ (el "h3" [] ((txt "status (read-only)") ∷ []))
          ∷ (field_table (
              (
                units "observedGeneration",
                units "int64",
                units "—",
                units "Generation the status reflects.",
              )
              ∷ (
                units "phase",
                units "enum",
                units "—",
                units "Pending | Provisioning | Ready | Degraded | Deleting | Failed.",
              )
              ∷ (
                units "resolved",
                units "object",
                units "—",
                units "Immutable resolution snapshot: the sole basis for steady-state rendering.",
              )
              ∷ (
                units "feasibilityChecks[]",
                units "array",
                units "—",
                units "Recheck report written at creation time.",
              )
              ∷ (
                units "endpoint{address,port}",
                units "object",
                units "—",
                units "Discovered child API address and NodePort.",
              )
              ∷ (
                units "credential.secretName",
                units "string",
                units "—",
                units "Secret containing the admin kubeconfig (kubeconfig.yaml key).",
              )
              ∷ (
                units "host.quotaUsed",
                units "object",
                units "—",
                units "Quota accounting observed on the host side.",
              )
              ∷ (
                units "conditions[]",
                units "[]Condition",
                units "—",
                units "Standard condition table.",
              )
              ∷ []))
          ∷ (code_block cn copied
              (units
                "apiVersion: kubecell.io/v1alpha1\nkind: VirtualCluster\nmetadata:\n  name: child-dev\n  namespace: kubecell-system\nspec:\n  cellRef: {name: cell1}\n  classRef: {name: ascend-910b-small}\nstatus:\n  phase: Ready\n  endpoint:\n    address: 10.0.12.7\n    port: 31234\n  credential:\n    secretName: kubecell-child-dev-<uid>-admin-kubeconfig\n  host:\n    quotaUsed:\n      requests.cpu: \"400m\"\n      requests.huawei.com/Ascend910: \"2\"")
              (some Language.yaml) (some (units "virtualcluster-status.yaml"))
              (some (units "not-prose my-6")) false none)
          ∷ (el "h2" (str "id" "phases" ∷ []) ((txt "Phases and conditions") ∷ []))
          ∷ (el "div" (cls "not-prose my-6 overflow-hidden rounded-xl border border-white/10" ∷ [])
              ((el "table" (cls "w-full border-collapse text-left text-sm" ∷ []) (
                  (el "thead" [] (
                    (el "tr" (cls "bg-white/[0.03]" ∷ []) (
                      (el "th" (cls "px-4 py-3 font-medium text-muted-foreground" ∷ [])
                        ((txt "Phase") ∷ []))
                      ∷ (el "th" (cls "px-4 py-3 font-medium text-muted-foreground" ∷ [])
                          ((txt "Meaning") ∷ []))
                      ∷ []))
                    ∷ []))
                  ∷ (el "tbody" (cls "text-muted-foreground" ∷ []) (
                      map
                        (λ (row : Text × Text).
                          el "tr" (computed "key" row.0 ∷ cls "border-t border-white/5" ∷ []) (
                            (el "td" (cls "px-4 py-3 font-mono text-xs text-sky-300" ∷ [])
                              ((text row.0) ∷ []))
                            ∷ (el "td" (cls "px-4 py-3" ∷ []) ((text row.1) ∷ []))
                            ∷ []))
                        ((
                          units "Pending",
                          units "Accepted, waiting for the controller to begin rendering.",
                        )
                          ∷ (
                            units "Provisioning",
                            units
                                "Works are being applied on the host; child cluster not yet Ready.",
                          )
                          ∷ (
                            units "Ready",
                            units
                                "Child API reachable, kubeconfig published, quota and policy in place.",
                          )
                          ∷ (
                            units "Degraded",
                            units
                                "The Cell lost liveness (stale lease) or a required inventory source is unavailable.",
                          )
                          ∷ (units "Deleting", units "Finalizer cleanup in progress by UID.")
                          ∷ (
                            units "Failed",
                            units
                                "A terminal error that requires operator action; re-applying does not bypass it.",
                          )
                          ∷ [])))
                  ∷ []))
                ∷ []))
          ∷ (el "ul" [] (
              (el "li" [] (
                (el "strong" [] ((txt "Joined / Available") ∷ []))
                ∷ (txt " — OCM conditions. Available alone is not trustworthy.")
                ∷ []))
              ∷ (el "li" [] (
                  (el "strong" [] ((txt "ProviderReady") ∷ []))
                  ∷ (txt " — host baseline decomposed into K3k, CNI, and TopoLVM readiness.")
                  ∷ []))
              ∷ (el "li" [] (
                  (el "strong" [] ((txt "InventoryFresh") ∷ []))
                  ∷ (txt " — inventory and storage observations are recent and from a live source.")
                  ∷ []))
              ∷ (el "li" [] (
                  (el "strong" [] ((txt "CapabilityMismatch") ∷ []))
                  ∷ (txt " — declared device capacity exceeds observed allocatable.")
                  ∷ []))
              ∷ []))
          ∷ (el "p" [] (
              (txt "See also: ")
              ∷ (el "a"
                  (str "href" "https://github.com/taosher/KubeCell/blob/main/technical-design.md"
                    ∷ [])
                  ((txt "technical-design.md") ∷ []))
              ∷ (txt " ")
              ∷ (txt "for the authoritative field-by-field design and validation rules.")
              ∷ []))
          ∷ [])
        none
