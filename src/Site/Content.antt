-- ===== src/Site/Content.antt =====
-- website/lib/content.ts and website/lib/faq.ts: tables of the home page and the FAQ.
use kube_cell.Common.{List, [], ◌∷◌, Text, units}

pub record StackRow : Type 0 where
  pub component : Text
  pub version : Text
  pub note : Text

unfoldable pub pinned_stack : List StackRow
pinned_stack =
    record {
      component = units "Management cluster";
      version = units "Single-node K3s";
      note = units "Holds your manifests and reports state; runs no tenant workloads.";
    }
    ∷ record {
      component = units "Host Kubernetes";
      version = units "K3s v1.36.3+k3s1";
      note = units "Validated on ARM64 bare metal.";
    }
    ∷ record {
      component = units "K3k";
      version = units "v1.2.0";
      note = units "Creates and manages the per-developer control planes on each host.";
    }
    ∷ record {
      component = units "Cluster Kubernetes";
      version = units "v1.34.2+k3s1";
      note = units "The version your developers see and target with kubectl.";
    }
    ∷ record {
      component = units "OCM Hub";
      version = units "v1.3.1";
      note = units "The audited channel between the management cluster and hosts.";
    }
    ∷ record {
      component = units "Storage";
      version = units "TopoLVM on hosts";
      note = units "Persistent volumes for clusters, backed by local disks on the host.";
    }
    ∷ []

pub record IsolationControl : Type 0 where
  pub title : Text
  pub description : Text

unfoldable pub isolation_controls : List IsolationControl
isolation_controls =
    record {
      title = units "A dedicated namespace per cluster";
      description =
          units
            "Your workloads run in their own namespace on the host, with quotas, defaults, and network rules attached to it.";
    }
    ∷ record {
      title = units "Hard CPU, memory, and GPU limits";
      description =
          units
            "Quotas come from the tier you pick and are enforced by Kubernetes itself, not by convention or a dashboard.";
    }
    ∷ record {
      title = units "Private by default";
      description =
          units "Clusters cannot reach each other's services unless you explicitly allow it.";
    }
    ∷ record {
      title = units "Unsafe workloads are blocked";
      description =
          units
            "Privileged containers and hostPath volumes are rejected before they reach a host, with a hint about what to use instead.";
    }
    ∷ record {
      title = units "Nothing changes behind your back";
      description =
          units
            "Every host-side change is a declarative manifest applied through one management plane, so you can see and review what happened.";
    }
    ∷ record {
      title = units "Whole GPUs, never shared";
      description =
          units
            "Accelerators are allocated as whole cards: your cluster gets the card, or it does not. No oversubscription between tenants.";
    }
    ∷ []

pub record FaqItem : Type 0 where
  pub question : Text
  pub answer : Text

unfoldable pub faq_items : List FaqItem
faq_items =
    record {
      question = units "What exactly do I get when I create a cluster?";
      answer =
          units
            "A real Kubernetes cluster with its own API server, control plane, and persistent data volume — not a namespace with extra labels. You receive an admin kubeconfig, and normal kubectl, Helm, and CI tools work exactly as they do on any other cluster.";
    }
    ∷ record {
      question = units "Do I need GPUs or accelerators to use KubeCell?";
      answer =
          units
            "No. Accelerators are optional. A host that only offers CPU and memory works fine; you simply publish a quota tier without device requests. The same quota, storage, and isolation model applies either way.";
    }
    ∷ record {
      question = units "Can one developer's workloads starve another's?";
      answer =
          units
            "No. Each cluster has a hard quota for CPU, memory, and accelerators, enforced by Kubernetes on the host. Requests and limits are both capped, so one busy cluster cannot consume another's share.";
    }
    ∷ record {
      question = units "Why does my cluster show only one node?";
      answer =
          units
            "The node is how your cluster sees its quota; the physical machines belong to the host and are managed for you. Need more capacity? Move the cluster to a larger quota tier rather than adding nodes.";
    }
    ∷ record {
      question = units "What happens when I delete a cluster?";
      answer =
          units
            "KubeCell removes the cluster, its credentials, and everything it created on the host. Persistent volumes follow the storage reclaim policy you configured: under Retain they are kept for recovery, so data is never deleted silently.";
    }
    ∷ record {
      question = units "Can two clusters share one GPU?";
      answer =
          units
            "No. Accelerators are allocated as whole cards: a cluster either owns a card or it does not. That keeps performance predictable and makes capacity accounting honest for everyone.";
    }
    ∷ record {
      question = units "Do I need to change my manifests or tooling?";
      answer =
          units
            "No. Workloads inside a cluster are ordinary Pods, Services, Ingresses, and PVCs. There is no sidecar to install and no custom client: your existing kubectl, Helm charts, and CI pipelines work unchanged.";
    }
    ∷ record {
      question = units "How do I expose an app to the internet?";
      answer =
          units
            "Create a normal Ingress in your cluster and choose a name. KubeCell publishes it on the host's shared ingress at a predictable hostname, and TLS is handled at the host level. Ask your platform team for the domain suffix they configured.";
    }
    ∷ record {
      question = units "How long does it take for a cluster to be ready?";
      answer =
          units
            "The first cluster on a host usually takes 10 to 20 minutes because the container images have to be pulled onto the machine. Later clusters start much faster since the layers are already cached.";
    }
    ∷ record {
      question = units "Is KubeCell production ready?";
      answer =
          units
            "Not yet. KubeCell is under active development and the APIs are still v1alpha1. Use it for development, evaluation, and lab environments while the remaining hardening work completes.";
    }
    ∷ []
