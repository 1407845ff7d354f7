-- ===== src/Site/Config.antt =====
-- website/lib/site.ts. `new URL(path, base).toString()` is the platform's: `resolve`, with `none` for
-- the exception on an invalid URL. The environment variable NEXT_PUBLIC_SITE_URL is an argument.
use kube_cell.Common.{
  Bool, true, false, List, [], ◌∷◌, Option, none, some, Text, units, all, if◌then◌else◌,
}

pub record DocsUrls : Type 0 where
  pub design : Text
  pub onboarding : Text
  pub ci_plan : Text

pub record SiteConfig : Type 0 where
  pub name : Text
  pub tagline : Text
  pub title : Text
  pub description : Text
  pub short_description : Text
  pub url : Text
  pub github : Text
  pub github_issues : Text
  pub docs : DocsUrls
  pub keywords : List Text

-- `process.env.NEXT_PUBLIC_SITE_URL ?? "https://kubecell.pages.dev"`
abbrev pub site_url : Option Text → Text
site_url none = units "https://kubecell.pages.dev"
site_url (some url) = url

unfoldable pub site_config : Option Text → SiteConfig
site_config env = record {
  name = units "KubeCell";
  tagline = units "Give every developer their own Kubernetes cluster, on hardware you already own";
  title = units "KubeCell — A Kubernetes cluster for every developer on shared bare metal";
  description =
      units
        "KubeCell gives every developer their own isolated Kubernetes cluster on the servers you already run. Standard kubectl, hard CPU/memory/GPU quotas, persistent storage, and a kubeconfig in minutes.";
  short_description =
      units
        "Give every developer their own isolated Kubernetes cluster on shared hardware — real kubectl, hard quotas, ready in minutes.";
  url = site_url env;
  github = units "https://github.com/taosher/KubeCell";
  github_issues = units "https://github.com/taosher/KubeCell/issues";
  docs = record {
    design = units "https://github.com/taosher/KubeCell/blob/main/technical-design.md";
    onboarding =
        units "https://github.com/taosher/KubeCell/blob/main/docs/operations/host-onboarding.md";
    ci_plan = units "https://github.com/taosher/KubeCell/blob/main/docs/testing/ci-plan.md";
  };
  keywords =
      units "KubeCell"
      ∷ units "Kubernetes operator"
      ∷ units "virtual cluster"
      ∷ units "K3s"
      ∷ units "K3k"
      ∷ units "multi-tenancy"
      ∷ units "bare metal Kubernetes"
      ∷ units "resource quota isolation"
      ∷ units "virtual node"
      ∷ units "TopoLVM"
      ∷ units "OCM"
      ∷ units "accelerator sharing"
      ∷ units "Ascend 910B"
      ∷ units "GPU sharing Kubernetes"
      ∷ units "platform engineering"
      ∷ units "developer sandbox"
      ∷ [];
}

abbrev pub Resolve : Type 0
Resolve = Text → Text → Option Text

unfoldable pub absolute_url : Resolve → Option Text → Text → Option Text
unfolding site_config
absolute_url resolve env path = resolve path (site_config env).url

pub record NavLink : Type 0 where
  pub title : Text
  pub href : Text

unfoldable pub primary_nav : List NavLink
primary_nav =
    record { title = units "Quickstart"; href = units "/quickstart/" }
    ∷ record { title = units "Use cases"; href = units "/use-cases/" }
    ∷ record { title = units "Architecture"; href = units "/architecture/" }
    ∷ record { title = units "Docs"; href = units "/docs/" }
    ∷ []

abbrev address_or_empty : Option Text → Text
address_or_empty none = []
address_or_empty (some address) = address

abbrev is_given : Option Text → Bool
is_given none = false
is_given (some address) = true

-- Data that holds the addresses of these paths: `none` if `absoluteUrl` throws at one of them.
unfoldable pub with_addresses {ℓ} :
    {A : Type ℓ} → Resolve → Option Text → List Text → ((Text → Text) → A) → Option A
unfolding absolute_url
with_addresses resolve env paths build =
    if all (λ path. is_given (absolute_url resolve env path)) paths
    then some (build (λ path. address_or_empty (absolute_url resolve env path)))
    else none
