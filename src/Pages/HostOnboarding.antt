-- ===== src/Pages/HostOnboarding.antt =====
-- website/app/docs/host-onboarding/page.tsx.
use kube_cell.Common.{Bool, false, List, [], ◌∷◌, none, some, Text, units, map}
use kube_cell.Dom.{computed, Node, text, el, txt, str, cls, ClassNames}
use kube_cell.Components.Callout.{callout, prose, info, warning}
use kube_cell.Components.CodeBlock.{code_block}
use kube_cell.Highlight.Types.{Language}
use kube_cell.Site.Metadata.{Metadata, build_metadata}

unfoldable pub metadata : Metadata
unfolding build_metadata
metadata = build_metadata (record {
  title = units "Host onboarding";
  description =
      units
        "Onboard physical hosts as KubeCell Cells with four commands: doctor, join, accept, chart. Includes Cell generation, class drafting, appending workers, and a troubleshooting table.";
  path = units "/docs/host-onboarding/";
  keywords = some (
      units "KubeCell host onboarding"
      ∷ units "clusteradm join"
      ∷ units "ManagedCluster accept"
      ∷ units "kubecell-host chart"
      ∷ units "suggest-class"
      ∷ []);
  type = none;
})

abbrev pub doctor : Text
doctor =
    units
      "go run ./cmd/kubecell-installer doctor management --bundle <release-dir>\ngo run ./cmd/kubecell-installer doctor host --bundle <release-dir> \\\n  --device huawei.com/Ascend910"

abbrev pub four : Text
four =
    units
      "# 1. join — host context\nKUBECONFIG=<host-kubeconfig> clusteradm join \\\n  --hub-token \"$(clusteradm get token)\" \\\n  --hub-apiserver https://hub.example.com:6443 \\\n  --cluster-name <cell-name> --wait\n\n# 2. accept — management context (mandatory manual gate)\nKUBECONFIG=<hub-kubeconfig> clusteradm accept --clusters <cell-name> --wait\n\n# 3. chart — install the host chart\nkubectl create ns kubecell-system\nhelm install kubecell-host ./charts/kubecell-host \\\n  --namespace kubecell-system \\\n  --set image.repository=<controller-repo> \\\n  --set image.tag=<tag> --set image.pullPolicy=IfNotPresent\n\n# 4. cell — generate from live discovery, then apply\ngo run ./cmd/kubecell-installer host --step=cell --cell <cell-name> \\\n  --kubeconfig <host-kubeconfig> | grep -v '^#' > cell.yaml\nkubectl apply -n kubecell-system -f cell.yaml"

abbrev pub suggest : Text
suggest =
    units
      "go run ./cmd/kubecell-installer suggest-class \\\n  --cell-file cell.yaml --name <class-name>\n\n# The draft reflects observed allocatable capacity.\n# Adjust the numbers down to the tenant envelope you are comfortable with,\n# then apply the VirtualNodeClass."

abbrev pub append : Text
append =
    units
      "# Case B: append same-profile workers to an existing Cell\n# 1. Join the existing host cluster as a K3s agent with an independent data directory.\n#    This deletes no data on that machine and runs no OCM onboarding.\n# 2. Re-apply profile and topology labels, wait for node Ready and platform DaemonSets.\n# 3. Confirm the new node appears in inventory:\nkubectl -n kubecell-system get cell <cell-name> \\\n  -o jsonpath='{range .status.nodes[*]}{.name}{\"\\t\"}{.ready}{\"\\n\"}{end}'"

abbrev pub symptoms : List (Text × Text × Text)
symptoms =
    (
      units "clusteradm init reports success but installs nothing",
      units "Wrong kubeconfig context",
      units "Re-run with an explicit KUBECONFIG= prefix",
    )
    ∷ (
      units "OCM components stuck in ImagePullBackOff",
      units "Image not available from the configured mirror",
      units "Fix the component PullSpec to a reachable registry",
    )
    ∷ (
      units "Preloaded image not recognized by kubelet",
      units "Short tag or incomplete layers",
      units "Re-tag with the fully qualified name and verify with crictl inspecti",
    )
    ∷ (
      units "Child CoreDNS Pending",
      units "Third-party Pod without resources blocked by LimitRange",
      units "Covered by the kubecell-defaults baseline in the Foundation Work",
    )
    ∷ (
      units "Child PVC reports no free storage",
      units "Missing TopoLVM topology labels",
      units "Re-apply topology.topolvm.io/node and topology.kubernetes.io/zone labels",
    )
    ∷ (
      units "TopoLVM CSINode has no driver",
      units "Custom kubelet root directory not passed to the chart",
      units "Pass it with --set on the host chart",
    )
    ∷ (
      units "Traefik :80 unreachable",
      units "Conflicting Service or stale host-port binding",
      units
          "Use hostNetwork via values, remove stale load-balancer helpers, clear stale NAT chains",
    )
    ∷ (
      units "Child Ingress returns 503",
      units "Mirrored Endpoints carry a mismatched port name",
      units "The controller strips port names; for older clusters clear the port name to \"\"",
    )
    ∷ (
      units "Volumes remain after VirtualCluster deletion",
      units "Orphaned logical volumes after the child API is gone",
      units "Remove only cluster-created volumes with lvremove; leave the volume group intact",
    )
    ∷ (
      units "Zero accelerators reported",
      units "Device Plugin registration mismatch",
      units "Check plugin Pod logs for registration failures before changing anything",
    )
    ∷ []

-- `copied` is the state of the copy buttons.
module _ (cn : ClassNames) where
  unfoldable pub host_onboarding_page : Bool → Node
  unfolding prose callout
  host_onboarding_page copied =
      prose cn
        ((el "p" (cls "font-mono text-xs uppercase tracking-[0.2em] text-sky-400" ∷ [])
            ((txt "Getting started") ∷ []))
          ∷ (el "h1"
              (cls "mt-3 text-3xl font-semibold tracking-tight text-foreground sm:text-4xl" ∷ [])
              ((txt "Host onboarding") ∷ []))
          ∷ (el "p" (cls "mt-5 text-base leading-7 text-muted-foreground" ∷ []) (
              (txt
                "Humans run four commands. The installer owns the release bundle, the pinned versions, and the baseline. This page is the operational companion to the")
              ∷ (txt " ")
              ∷ (el "a"
                  (str "href"
                      "https://github.com/taosher/KubeCell/blob/main/docs/operations/host-onboarding.md"
                    ∷ [])
                  ((txt "repository guide") ∷ []))
              ∷ (txt ".")
              ∷ []))
          ∷ (callout cn (some info) (some (units "Conventions"))
              ((el "code" [] ((txt "KUBECONFIG_HUB") ∷ []))
                ∷ (txt " points at the management cluster and")
                ∷ (txt " ")
                ∷ (el "code" [] ((txt "KUBECONFIG_HOST") ∷ []))
                ∷ (txt " at the host cluster. Always pass an explicit")
                ∷ (txt " ")
                ∷ (el "code" [] ((txt "KUBECONFIG=") ∷ []))
                ∷ (txt " so a command cannot target the wrong cluster.")
                ∷ [])
              none)
          ∷ (el "h2" (str "id" "prerequisites" ∷ [])
              ((txt "0. Prerequisites (platform team, one time)") ∷ []))
          ∷ (el "ul" [] (
              (el "li" [] (
                (txt "Pinned versions from the release: host K3s ")
                ∷ (el "code" [] ((txt "v1.36.3+k3s1") ∷ []))
                ∷ (txt ", K3k")
                ∷ (txt " ")
                ∷ (el "code" [] ((txt "v1.2.0") ∷ []))
                ∷ (txt ", child K3s ")
                ∷ (el "code" [] ((txt "v1.34.2+k3s1") ∷ []))
                ∷ (txt ", OCM Hub ")
                ∷ (el "code" [] ((txt "v1.3.1") ∷ []))
                ∷ (txt ".")
                ∷ []))
              ∷ (el "li" []
                  ((txt "Registry mirrors configured and verified with a small image pull.") ∷ []))
              ∷ (el "li" [] (
                  (txt "Profile and topology labels on every host node:")
                  ∷ (txt " ")
                  ∷ (el "code" [] ((txt "hardware.kubecell.io/profile") ∷ []))
                  ∷ (txt ", ")
                  ∷ (el "code" [] ((txt "topology.topolvm.io/node") ∷ []))
                  ∷ (txt ",")
                  ∷ (txt " ")
                  ∷ (el "code" [] ((txt "topology.kubernetes.io/zone") ∷ []))
                  ∷ (txt ".")
                  ∷ []))
              ∷ (el "li" [] (
                  (txt "Controller image available to both clusters, matching architecture.") ∷ []))
              ∷ []))
          ∷ (el "h2" (str "id" "doctor" ∷ []) ((txt "1. doctor — read-only preflight") ∷ []))
          ∷ (code_block cn copied doctor (some Language.bash) (some (units "doctor.sh"))
              (some (units "not-prose my-6")) false none)
          ∷ (el "p" [] (
              (txt
                "Stop at the first failure. On the host side, confirm: nodes Ready, profile labels present, TopoLVM capacity available, and accelerator resources reported by the Device Plugin.")
              ∷ []))
          ∷ (el "h2" (str "id" "four-commands" ∷ []) ((txt "2. The four commands") ∷ []))
          ∷ (code_block cn copied four (some Language.bash) (some (units "four-commands.sh"))
              (some (units "not-prose my-6")) false none)
          ∷ (callout cn (some warning) (some (units "Do not reuse a stale token"))
              ((txt "Between fetching the hub token and running ")
                ∷ (el "code" [] ((txt "clusteradm join") ∷ []))
                ∷ (txt ", do not call")
                ∷ (txt " ")
                ∷ (el "code" [] ((txt "get token") ∷ []))
                ∷ (txt
                    " twice — the older token may expire. The ManagedCluster name must equal the future Cell name; the generator enforces this.")
                ∷ [])
              none)
          ∷ (el "h2" (str "id" "class" ∷ []) ((txt "3. Cell and class") ∷ []))
          ∷ (el "p" [] (
              (txt
                "The Cell comes from live discovery, so you only apply it. The class is drafted from observed allocatable capacity and then tuned down to the tenant envelope.")
              ∷ []))
          ∷ (code_block cn copied suggest (some Language.bash) (some (units "suggest-class.sh"))
              (some (units "not-prose my-6")) false none)
          ∷ (el "h2" (str "id" "append-workers" ∷ [])
              ((txt "4. Appending same-profile workers (Case B)") ∷ []))
          ∷ (el "p" [] (
              (txt
                "Growing an existing Cell does not create a new Cell and does not run OCM onboarding. Join the new machine as a K3s agent of the same host cluster, label it, and confirm it shows up in inventory. Existing workloads are neither migrated nor interrupted.")
              ∷ []))
          ∷ (code_block cn copied append (some Language.bash) (some (units "append-workers.sh"))
              (some (units "not-prose my-6")) false none)
          ∷ (el "h2" (str "id" "troubleshooting" ∷ [])
              ((txt "5. Troubleshooting quick reference") ∷ []))
          ∷ (el "div" (cls "not-prose my-6 overflow-hidden rounded-xl border border-white/10" ∷ [])
              ((el "div" (cls "overflow-x-auto" ∷ []) (
                  (el "table" (cls "w-full min-w-[720px] border-collapse text-left text-sm" ∷ []) (
                    (el "thead" [] (
                      (el "tr" (cls "bg-white/[0.03]" ∷ []) (
                        (el "th" (cls "px-4 py-3 font-medium text-muted-foreground" ∷ [])
                          ((txt "Symptom") ∷ []))
                        ∷ (el "th" (cls "px-4 py-3 font-medium text-muted-foreground" ∷ [])
                            ((txt "Likely cause") ∷ []))
                        ∷ (el "th" (cls "px-4 py-3 font-medium text-muted-foreground" ∷ [])
                            ((txt "Action") ∷ []))
                        ∷ []))
                      ∷ []))
                    ∷ (el "tbody" (cls "text-muted-foreground" ∷ []) (
                        map
                          (λ row.
                            el "tr" (computed "key" row.0 ∷ cls "border-t border-white/5" ∷ []) (
                              (el "td" (cls "px-4 py-3 text-foreground/85" ∷ [])
                                ((text row.0) ∷ []))
                              ∷ (el "td" (cls "px-4 py-3" ∷ []) ((text row.1) ∷ []))
                              ∷ (el "td" (cls "px-4 py-3" ∷ []) ((text row.2) ∷ []))
                              ∷ []))
                          symptoms))
                    ∷ []))
                  ∷ []))
                ∷ []))
          ∷ (el "p" [] (
              (txt "Next: ")
              ∷ (el "Link" (str "href" "/docs/first-virtualcluster/" ∷ [])
                  ((txt "create your first VirtualCluster") ∷ []))
              ∷ (txt ".")
              ∷ []))
          ∷ [])
        none
