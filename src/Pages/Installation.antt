-- ===== src/Pages/Installation.antt =====
-- website/app/docs/installation/page.tsx.
use kube_cell.Common.{Bool, false, List, [], ◌∷◌, none, some, Text, units, map}
use kube_cell.Dom.{computed, Node, text, el, txt, str, cls, ClassNames}
use kube_cell.Components.Callout.{callout, prose, info, warning}
use kube_cell.Components.CodeBlock.{code_block}
use kube_cell.Highlight.Types.{Language}
use kube_cell.Site.Metadata.{Metadata, build_metadata}

unfoldable pub metadata : Metadata
unfolding build_metadata
metadata = build_metadata (record {
  title = units "Installation";
  description =
      units
        "Install KubeCell: pinned versions, prerequisites, the management plane, OCM Hub, host onboarding, and baseline verification in the documented order.";
  path = units "/docs/installation/";
  keywords = some (
      units "install KubeCell"
      ∷ units "KubeCell installer"
      ∷ units "OCM Hub installation"
      ∷ units "K3s host onboarding"
      ∷ units "kubecell-management chart"
      ∷ []);
  type = none;
})

abbrev pub prereq : Text
prereq =
    units
      "# Pinned combination (do not replace silently)\n#   host K3s      v1.36.3+k3s1\n#   K3k           v1.2.0\n#   child K3s     v1.34.2+k3s1\n#   OCM Hub       v1.3.1\n\n# Host nodes carry the profile label and TopoLVM topology labels\nkubectl label node <node> hardware.kubecell.io/profile=<profile>\nkubectl label node <node> topology.topolvm.io/node=<node>\nkubectl label node <node> topology.kubernetes.io/zone=<node>\n\n# Both clusters must be able to pull the controller image.\n# Configure K3s registries.yaml mirrors first and verify with a small image."

abbrev pub management : Text
management =
    units
      "# 1. CRDs\nkubectl apply -f kubecell-release/manifests/crds\n\n# 2. OCM Hub (pinned version from the bundle)\ngo run ./cmd/kubecell-installer management \\\n  --bundle ./kubecell-release --apply --confirm\n\n# 3. Verify the management plane\nkubectl -n open-cluster-management get pods\nkubectl -n kubecell-system get deploy"

abbrev pub host_join : Text
host_join =
    units
      "# Run against the host cluster\nexport KUBECONFIG=<host-kubeconfig>\n\nKUBECONFIG=$KUBECONFIG clusteradm join \\\n  --hub-token \"$(clusteradm get token)\" \\\n  --hub-apiserver https://hub.example.com:6443 \\\n  --cluster-name <cell-name> --wait"

abbrev pub host_accept : Text
host_accept =
    units
      "# Run against the management cluster\nexport KUBECONFIG=<hub-kubeconfig>\n\nKUBECONFIG=$KUBECONFIG clusteradm accept --clusters <cell-name> --wait"

abbrev pub host_chart : Text
host_chart =
    units
      "kubectl create ns kubecell-system   # namespaceCreate is false, create it first\n\nhelm install kubecell-host ./charts/kubecell-host \\\n  --namespace kubecell-system \\\n  --set image.repository=<controller-repo> \\\n  --set image.tag=<tag> --set image.pullPolicy=IfNotPresent"

abbrev pub verify : Text
verify =
    units
      "kubectl -n kubecell-system get cell,vnclass,vcp,vc\n\n# Cell readiness: joined, fresh lease, fresh inventory\nkubectl -n kubecell-system get cell cell1 \\\n  -o jsonpath='{.status.phase}{\"\\t\"}{.status.managedCluster.leaseFresh}{\"\\n\"}'"

pub record OrderItem : Type 0 where
  pub title : Text
  pub body : Text

abbrev pub order : List OrderItem
order =
    record {
      title = units "Apply CRDs";
      body =
          units
            "Install the four KubeCell CRDs from the release bundle. This is the only step that must happen before anything else.";
    }
    ∷ record {
      title = units "Install the OCM Hub";
      body =
          units
            "The management controller writes ManifestWork objects into the hub, so the hub must exist and be pinned to the bundle version.";
    }
    ∷ record {
      title = units "Install the management chart";
      body =
          units
            "Deploys the controller, webhook, RBAC, and the optional Kite dashboard. Requires both --apply and --confirm.";
    }
    ∷ record {
      title = units "Join the host";
      body =
          units
            "Run the locked clusteradm join command on the host. The ManagedCluster name must equal the future Cell name.";
    }
    ∷ record {
      title = units "Approve the ManagedCluster";
      body =
          units
            "clusteradm accept is a mandatory manual safety gate. KubeCell never auto-approves a host.";
    }
    ∷ record {
      title = units "Install the host chart and baseline";
      body =
          units
            "The host chart installs the webhook; the installer installs the pinned baseline: K3k, TopoLVM, Traefik, Device Plugin.";
    }
    ∷ record {
      title = units "Generate the Cell and verify";
      body =
          units
            "host --step=cell produces the Cell from live discovery. Apply it, then confirm joined, fresh lease, and fresh inventory.";
    }
    ∷ record {
      title = units "Create class, plan, and child";
      body =
          units
            "Draft a quota tier with suggest-class, then follow the first VirtualCluster guide.";
    }
    ∷ []

-- `copied` is the state of the copy buttons.
module _ (cn : ClassNames) where
  unfoldable pub installation_page : Bool → Node
  unfolding prose callout
  installation_page copied =
      prose cn
        ((el "p" (cls "font-mono text-xs uppercase tracking-[0.2em] text-sky-400" ∷ [])
            ((txt "Getting started") ∷ []))
          ∷ (el "h1"
              (cls "mt-3 text-3xl font-semibold tracking-tight text-foreground sm:text-4xl" ∷ [])
              ((txt "Installation") ∷ []))
          ∷ (el "p" (cls "mt-5 text-base leading-7 text-muted-foreground" ∷ []) (
              (txt
                "KubeCell installs in a fixed order. Deviating from it is the most common cause of confusing failures, so treat this page as a checklist rather than a menu.")
              ∷ []))
          ∷ (callout cn (some warning) (some (units "Pre-release"))
              ((txt
                  "KubeCell is not production ready. Install it in a lab with disposable hosts until the hardening milestones complete.")
                ∷ [])
              none)
          ∷ (el "h2" (str "id" "prerequisites" ∷ []) ((txt "Prerequisites") ∷ []))
          ∷ (el "p" [] (
              (txt
                "Both clusters must be reachable from your workstation, able to pull the controller image, and running the pinned versions. Host nodes need profile and TopoLVM topology labels — labels do not survive a node rebuild, so re-apply them after any reinstall.")
              ∷ []))
          ∷ (code_block cn copied prereq (some Language.bash) (some (units "prerequisites.sh"))
              (some (units "not-prose my-6")) false none)
          ∷ (el "h2" (str "id" "order" ∷ []) ((txt "Installation order") ∷ []))
          ∷ (el "ol" [] (
              map
                (λ step. el "li" (computed "key" step.title ∷ []) (
                  (el "strong" [] ((text step.title) ∷ (txt ".") ∷ []))
                  ∷ (txt " ")
                  ∷ (text step.body)
                  ∷ []))
                order))
          ∷ (el "h2" (str "id" "management" ∷ []) ((txt "Management plane") ∷ []))
          ∷ (el "p" [] (
              (txt
                "The management cluster is a single-node K3s that holds desired state and observations only. It runs no tenant workloads. Its K3s version may differ from the hosts.")
              ∷ []))
          ∷ (code_block cn copied management (some Language.bash) (some (units "management.sh"))
              (some (units "not-prose my-6")) false none)
          ∷ (callout cn (some info) (some (units "Dry-run by default"))
              ((txt "The installer is read-only unless you pass both ")
                ∷ (el "code" [] ((txt "--apply") ∷ []))
                ∷ (txt " and")
                ∷ (txt " ")
                ∷ (el "code" [] ((txt "--confirm") ∷ []))
                ∷ (txt ". ")
                ∷ (el "code" [] ((txt "doctor") ∷ []))
                ∷ (txt " never mutates anything.")
                ∷ [])
              none)
          ∷ (el "h2" (str "id" "host" ∷ []) ((txt "Host onboarding") ∷ []))
          ∷ (el "p" [] (
              (txt
                "Joining is a two-step operation with a manual approval in between. The approval exists so a compromised or misconfigured host cannot register itself into your fleet unnoticed.")
              ∷ []))
          ∷ (code_block cn copied host_join (some Language.bash) (some (units "join.sh"))
              (some (units "not-prose my-6")) false none)
          ∷ (code_block cn copied host_accept (some Language.bash) (some (units "accept.sh"))
              (some (units "not-prose my-6")) false none)
          ∷ (code_block cn copied host_chart (some Language.bash) (some (units "host-chart.sh"))
              (some (units "not-prose my-6")) false none)
          ∷ (el "p" [] (
              (txt
                "The installer then installs the host baseline at pinned versions, idempotently: K3k, TopoLVM, Traefik, the vendor Device Plugin, and profile labels. The controller never installs these itself.")
              ∷ []))
          ∷ (el "h2" (str "id" "cell" ∷ []) ((txt "Generate the Cell") ∷ []))
          ∷ (el "p" [] (
              (txt
                "Do not hand-write a Cell from memory. Generate it from live host discovery so the machine profile matches reality, then apply it.")
              ∷ []))
          ∷ (code_block cn copied
              (units
                "go run ./cmd/kubecell-installer host --step=cell --cell <cell-name> \\\n  --kubeconfig <host-kubeconfig> | grep -v '^#' > cell.yaml\n\nkubectl apply -n kubecell-system -f cell.yaml")
              (some Language.bash) (some (units "cell.sh")) (some (units "not-prose my-6")) false
              none)
          ∷ (code_block cn copied verify (some Language.bash) (some (units "verify.sh"))
              (some (units "not-prose my-6")) false none)
          ∷ (el "h2" (str "id" "dashboard" ∷ []) ((txt "Optional: Kite dashboard") ∷ []))
          ∷ (el "p" [] (
              (txt "The ")
              ∷ (el "code" [] ((txt "kubecell-management") ∷ []))
              ∷ (txt " chart bundles the kite-org dashboard as a conditional dependency (")
              ∷ (el "code" [] ((txt "kite.enabled") ∷ []))
              ∷ (txt
                  ", on by default). It runs single-node with sqlite, exposes a NodePort Service, and uses a dedicated ServiceAccount. Pass the initial superuser password at install time; never commit it.")
              ∷ []))
          ∷ (el "h2" (str "id" "uninstall" ∷ []) ((txt "Uninstall and boundaries") ∷ []))
          ∷ (el "ul" [] (
              (el "li" [] (
                (txt "The installer only touches the selected KubeCell release. OCM Hub,")
                ∷ (txt " ")
                ∷ (el "code" [] ((txt "ManagedCluster") ∷ []))
                ∷ (txt
                    ", and klusterlet follow the OCM lifecycle and are out of Helm uninstall scope.")
                ∷ []))
              ∷ (el "li" [] (
                  (txt
                    "Uninstalling a Helm release is not the same as uninstalling OCM. Remove registrations deliberately.")
                  ∷ []))
              ∷ (el "li" [] (
                  (txt
                    "Deleting a VirtualCluster is safe and finalizer-scoped; deleting the management plane while child clusters exist is not a supported cleanup path.")
                  ∷ []))
              ∷ []))
          ∷ (el "p" [] (
              (txt "Next: ")
              ∷ (el "Link" (str "href" "/docs/host-onboarding/" ∷ [])
                  ((txt "host onboarding in four commands") ∷ []))
              ∷ (txt " or")
              ∷ (txt " ")
              ∷ (el "Link" (str "href" "/docs/first-virtualcluster/" ∷ [])
                  ((txt "create your first VirtualCluster") ∷ []))
              ∷ (txt ".")
              ∷ []))
          ∷ [])
        none
