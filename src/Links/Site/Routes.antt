-- ===== src/Links/Site/Routes.antt =====
-- The pages of the site against the routes of the site map.
use kube_cell.Common.{ℕ, Bool, Option, some, Text, ◌≡◌, refl, map}
use kube_cell.Dom.{ClassNames}
use kube_cell.Links.Site.{SitePage, page_at, docs_page_at, site_pages}
use kube_cell.Nav.{docs_flat, docs_nav}
use kube_cell.Pages.Quickstart.{metadata as quickstart_metadata}
use kube_cell.Pages.UseCases.{metadata as use_cases_metadata}
use kube_cell.Pages.Architecture.{metadata as architecture_metadata}
use kube_cell.Pages.DocsOverview.{metadata as docs_overview_metadata}
use kube_cell.Pages.Concepts.{metadata as concepts_metadata}
use kube_cell.Pages.Installation.{metadata as installation_metadata}
use kube_cell.Pages.FirstVirtualCluster.{metadata as first_virtual_cluster_metadata}
use kube_cell.Pages.HostOnboarding.{metadata as host_onboarding_metadata}
use kube_cell.Pages.Operations.{metadata as operations_metadata}
use kube_cell.Pages.ApiReference.{metadata as api_reference_metadata}
use kube_cell.Pages.Security.{metadata as security_metadata}
use kube_cell.Pages.Troubleshooting.{metadata as troubleshooting_metadata}
use kube_cell.Pages.DocsFaq.{metadata as docs_faq_metadata}
use kube_cell.Pages.RootLayout.{root_metadata_of}
use kube_cell.Seo.{Route, routes, static_routes, doc_routes}
use kube_cell.Site.Config.{site_config}
use kube_cell.Site.Metadata.{build_metadata}

-- The site map lists the pages of the site, each once and in the order of the table, and the
-- metadata of every page gives as its canonical address the path at which the page stands.
pub site_pages-routes :
    (cn : ClassNames) (env : Option Text) (is_open : Bool) (year : ℕ) (copied : Bool)
    (address : Text → Text)
    → (map (λ (page : SitePage). page.path) (site_pages cn env is_open year copied address)
        ≡ map (λ (route : Route). route.path) routes)
      × (map (λ (page : SitePage). page.canonical) (site_pages cn env is_open year copied address)
          ≡ map (λ (route : Route). some route.path) routes)
unfolding site_pages page_at docs_page_at root_metadata_of site_config build_metadata
    quickstart_metadata use_cases_metadata architecture_metadata docs_overview_metadata
    concepts_metadata installation_metadata first_virtual_cluster_metadata host_onboarding_metadata
    operations_metadata api_reference_metadata security_metadata troubleshooting_metadata
    docs_faq_metadata routes static_routes doc_routes docs_flat docs_nav
site_pages-routes cn env is_open year copied address = (refl, refl)
