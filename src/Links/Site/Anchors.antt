-- ===== src/Links/Site/Anchors.antt =====
-- The anchors of every page of the site.
use kube_cell.Common.{
  ℕ, Bool, List, [], ◌∷◌, Option, Text, units, ◌≡◌, refl, map, not, any, text_eq, true, ◌&&◌, all,
}
use kube_cell.Components.CodeBlock.NoLinks.{code_block-anchors}
use kube_cell.Dom.{ClassNames}
use kube_cell.Dom.Reading.{anchors}
use kube_cell.Home.CodeShowcase.{code_showcase}
use kube_cell.Layout.DocsNav.{docs_pager, docs_sidebar, docs_mobile_nav}
use kube_cell.Layout.Footer.{site_footer}
use kube_cell.Layout.Header.{site_header}
use kube_cell.Links.Site.{SitePage, page_at, docs_page_at, site_pages}
use kube_cell.Pages.DocsLayout.{docs_layout}
use kube_cell.Pages.RootLayout.{root_layout}
use kube_cell.Pages.Home.{home_page}
use kube_cell.Pages.Quickstart.{steps, quickstart_page}
use kube_cell.Pages.UseCases.{use_cases, use_cases_page}
use kube_cell.Pages.Architecture.{architecture_page}
use kube_cell.Pages.DocsOverview.{docs_overview_page}
use kube_cell.Pages.Concepts.{concepts_page}
use kube_cell.Pages.Installation.{installation_page}
use kube_cell.Pages.FirstVirtualCluster.{first_virtual_cluster_page}
use kube_cell.Pages.HostOnboarding.{host_onboarding_page}
use kube_cell.Pages.Operations.{operations_page}
use kube_cell.Pages.ApiReference.{api_reference_page}
use kube_cell.Pages.Security.{security_page}
use kube_cell.Pages.Troubleshooting.{troubleshooting_page}
use kube_cell.Pages.DocsFaq.{faq_page_of}

home_page-anchors :
    (cn : ClassNames) (env : Option Text) (copied : Bool) (address : Text → Text)
    → anchors (home_page cn env copied address) ≡ []
unfolding anchors home_page code_showcase
home_page-anchors cn env copied address = simp (code_block-anchors)

pub quickstart_page-anchors :
    (cn : ClassNames) (copied : Bool) (address : Text → Text)
    → anchors (quickstart_page cn copied address)
      ≡ units "prerequisites"
        ∷ units "doctor"
        ∷ units "management"
        ∷ units "host"
        ∷ units "class"
        ∷ units "virtualcluster"
        ∷ []
unfolding anchors quickstart_page steps
quickstart_page-anchors cn copied address = simp (code_block-anchors)

pub use_cases_page-anchors :
    (cn : ClassNames) (copied : Bool) (address : Text → Text)
    → anchors (use_cases_page cn copied address)
      ≡ units "accelerator-sandboxes"
        ∷ units "ephemeral-environments"
        ∷ units "training-labs"
        ∷ units "field-labs"
        ∷ units "platform-landlord"
        ∷ []
unfolding anchors use_cases_page use_cases
use_cases_page-anchors cn copied address = simp (code_block-anchors)

architecture_page-anchors :
    (cn : ClassNames) (copied : Bool) (address : Text → Text)
    → anchors (architecture_page cn copied address) ≡ []
unfolding anchors architecture_page
architecture_page-anchors cn copied address = simp (code_block-anchors)

docs_overview_page-anchors :
    (cn : ClassNames)
    → anchors (docs_overview_page cn)
      ≡ units "what-it-is"
        ∷ units "what-it-is-not"
        ∷ units "mental-model"
        ∷ units "architecture"
        ∷ units "principles"
        ∷ units "who"
        ∷ units "status"
        ∷ []
unfolding anchors docs_overview_page
docs_overview_page-anchors cn = refl

concepts_page-anchors :
    (cn : ClassNames) (copied : Bool)
    → anchors (concepts_page cn copied)
      ≡ units "cell"
        ∷ units "virtualnodeclass"
        ∷ units "virtualclusterplan"
        ∷ units "virtualcluster"
        ∷ units "logical-node"
        ∷ units "reflected-pod"
        ∷ units "works"
        ∷ units "snapshot"
        ∷ units "constants"
        ∷ units "glossary"
        ∷ []
unfolding anchors concepts_page
concepts_page-anchors cn copied = simp (code_block-anchors)

installation_page-anchors :
    (cn : ClassNames) (copied : Bool)
    → anchors (installation_page cn copied)
      ≡ units "prerequisites"
        ∷ units "order"
        ∷ units "management"
        ∷ units "host"
        ∷ units "cell"
        ∷ units "dashboard"
        ∷ units "uninstall"
        ∷ []
unfolding anchors installation_page
installation_page-anchors cn copied = simp (code_block-anchors)

first_virtual_cluster_page-anchors :
    (cn : ClassNames) (copied : Bool)
    → anchors (first_virtual_cluster_page cn copied)
      ≡ units "prerequisites"
        ∷ units "inspect"
        ∷ units "plan"
        ∷ units "create"
        ∷ units "kubeconfig"
        ∷ units "verify"
        ∷ units "delete"
        ∷ []
unfolding anchors first_virtual_cluster_page
first_virtual_cluster_page-anchors cn copied = simp (code_block-anchors)

host_onboarding_page-anchors :
    (cn : ClassNames) (copied : Bool)
    → anchors (host_onboarding_page cn copied)
      ≡ units "prerequisites"
        ∷ units "doctor"
        ∷ units "four-commands"
        ∷ units "class"
        ∷ units "append-workers"
        ∷ units "troubleshooting"
        ∷ []
unfolding anchors host_onboarding_page
host_onboarding_page-anchors cn copied = simp (code_block-anchors)

operations_page-anchors :
    (cn : ClassNames) (copied : Bool)
    → anchors (operations_page cn copied)
      ≡ units "health"
        ∷ units "quota"
        ∷ units "credentials"
        ∷ units "ingress"
        ∷ units "storage"
        ∷ units "upgrades"
        ∷ units "maintenance"
        ∷ units "cleanup"
        ∷ []
unfolding anchors operations_page
operations_page-anchors cn copied = simp (code_block-anchors)

api_reference_page-anchors :
    (cn : ClassNames) (copied : Bool)
    → anchors (api_reference_page cn copied)
      ≡ units "cell"
        ∷ units "virtualnodeclass"
        ∷ units "virtualclusterplan"
        ∷ units "virtualcluster"
        ∷ units "phases"
        ∷ []
unfolding anchors api_reference_page
api_reference_page-anchors cn copied = simp (code_block-anchors)

security_page-anchors :
    (cn : ClassNames) (copied : Bool)
    → anchors (security_page cn copied)
      ≡ units "layers"
        ∷ units "management"
        ∷ units "accelerators"
        ∷ units "credentials"
        ∷ units "storage"
        ∷ units "reporting"
        ∷ []
unfolding anchors security_page
security_page-anchors cn copied = simp (code_block-anchors)

troubleshooting_page-anchors :
    (cn : ClassNames) (copied : Bool)
    → anchors (troubleshooting_page cn copied)
      ≡ units "chain" ∷ units "symptoms" ∷ units "plan-rejected" ∷ units "collect" ∷ []
unfolding anchors troubleshooting_page
troubleshooting_page-anchors cn copied = simp (code_block-anchors)

faq_page_of-anchors :
    (cn : ClassNames) (address : Text → Text) → anchors (faq_page_of cn address) ≡ []
unfolding anchors faq_page_of
faq_page_of-anchors cn address = refl

-- The anchors by path.
abbrev pub Anchors : Type 0
Anchors = List (Text × List Text)

unfoldable pub anchors_by_path : List SitePage → Anchors
anchors_by_path pages = map (λ (page : SitePage). (page.path, anchors page.content)) pages

-- No text stands twice in the list.
unfoldable pub distinct : List Text → Bool
distinct [] = true
distinct (s ∷ later) = not (any (text_eq s) later) && distinct later

-- The anchors that the source writes into the pages: `main` of the frame first.
abbrev pub written_anchors : Anchors
written_anchors =
    (units "/", units "main" ∷ [])
    ∷ (
      units "/quickstart/",
      units "main"
          ∷ units "prerequisites"
          ∷ units "doctor"
          ∷ units "management"
          ∷ units "host"
          ∷ units "class"
          ∷ units "virtualcluster"
          ∷ [],
    )
    ∷ (
      units "/use-cases/",
      units "main"
          ∷ units "accelerator-sandboxes"
          ∷ units "ephemeral-environments"
          ∷ units "training-labs"
          ∷ units "field-labs"
          ∷ units "platform-landlord"
          ∷ [],
    )
    ∷ (units "/architecture/", units "main" ∷ [])
    ∷ (
      units "/docs/",
      units "main"
          ∷ units "what-it-is"
          ∷ units "what-it-is-not"
          ∷ units "mental-model"
          ∷ units "architecture"
          ∷ units "principles"
          ∷ units "who"
          ∷ units "status"
          ∷ [],
    )
    ∷ (
      units "/docs/concepts/",
      units "main"
          ∷ units "cell"
          ∷ units "virtualnodeclass"
          ∷ units "virtualclusterplan"
          ∷ units "virtualcluster"
          ∷ units "logical-node"
          ∷ units "reflected-pod"
          ∷ units "works"
          ∷ units "snapshot"
          ∷ units "constants"
          ∷ units "glossary"
          ∷ [],
    )
    ∷ (
      units "/docs/installation/",
      units "main"
          ∷ units "prerequisites"
          ∷ units "order"
          ∷ units "management"
          ∷ units "host"
          ∷ units "cell"
          ∷ units "dashboard"
          ∷ units "uninstall"
          ∷ [],
    )
    ∷ (
      units "/docs/first-virtualcluster/",
      units "main"
          ∷ units "prerequisites"
          ∷ units "inspect"
          ∷ units "plan"
          ∷ units "create"
          ∷ units "kubeconfig"
          ∷ units "verify"
          ∷ units "delete"
          ∷ [],
    )
    ∷ (
      units "/docs/host-onboarding/",
      units "main"
          ∷ units "prerequisites"
          ∷ units "doctor"
          ∷ units "four-commands"
          ∷ units "class"
          ∷ units "append-workers"
          ∷ units "troubleshooting"
          ∷ [],
    )
    ∷ (
      units "/docs/operations/",
      units "main"
          ∷ units "health"
          ∷ units "quota"
          ∷ units "credentials"
          ∷ units "ingress"
          ∷ units "storage"
          ∷ units "upgrades"
          ∷ units "maintenance"
          ∷ units "cleanup"
          ∷ [],
    )
    ∷ (
      units "/docs/api-reference/",
      units "main"
          ∷ units "cell"
          ∷ units "virtualnodeclass"
          ∷ units "virtualclusterplan"
          ∷ units "virtualcluster"
          ∷ units "phases"
          ∷ [],
    )
    ∷ (
      units "/docs/security/",
      units "main"
          ∷ units "layers"
          ∷ units "management"
          ∷ units "accelerators"
          ∷ units "credentials"
          ∷ units "storage"
          ∷ units "reporting"
          ∷ [],
    )
    ∷ (
      units "/docs/troubleshooting/",
      units "main"
          ∷ units "chain"
          ∷ units "symptoms"
          ∷ units "plan-rejected"
          ∷ units "collect"
          ∷ [],
    )
    ∷ (units "/docs/faq/", units "main" ∷ [])
    ∷ []

module _ (cn : ClassNames) (env : Option Text) (is_open : Bool) (year : ℕ) (copied : Bool)
    (address : Text → Text) where
  pub site_pages-anchors :
      anchors_by_path (site_pages cn env is_open year copied address) ≡ written_anchors
  unfolding anchors anchors_by_path site_pages page_at docs_page_at root_layout docs_layout
      site_header site_footer docs_sidebar docs_mobile_nav docs_pager
  site_pages-anchors =
      rw
        (
          home_page-anchors cn env copied address,
          quickstart_page-anchors cn copied address,
          use_cases_page-anchors cn copied address,
          architecture_page-anchors cn copied address,
          docs_overview_page-anchors cn,
          concepts_page-anchors cn copied,
          installation_page-anchors cn copied,
          first_virtual_cluster_page-anchors cn copied,
          host_onboarding_page-anchors cn copied,
          operations_page-anchors cn copied,
          api_reference_page-anchors cn copied,
          security_page-anchors cn copied,
          troubleshooting_page-anchors cn copied,
          faq_page_of-anchors cn address,
        )
        refl

-- On no page do two elements have the same `id`.
pub site_pages-anchors_distinct :
    (cn : ClassNames) (env : Option Text) (is_open : Bool) (year : ℕ) (copied : Bool)
    (address : Text → Text)
    → all
        (λ (entry : Text × List Text). distinct entry.1)
        (anchors_by_path (site_pages cn env is_open year copied address))
      ≡ true
unfolding distinct
site_pages-anchors_distinct cn env is_open year copied address =
    rw (site_pages-anchors cn env is_open year copied address) refl
