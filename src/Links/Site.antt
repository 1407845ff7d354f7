-- ===== src/Links/Site.antt =====
-- The site as a whole: what the files page.tsx of website/app/ and the two layouts render at the
-- addresses that the folders of the files give, each page with its canonical address.
pub mod Anchors
pub mod Arrivals
pub mod Routes
pub mod Scripts
pub mod Addresses
use kube_cell.Common.{Bool, List, [], ◌∷◌, Option, none, some, Text, units, ℕ}
use kube_cell.Dom.{Node, ClassNames}
use kube_cell.Json.{Json, member, string_in}
use kube_cell.Pages.DocsLayout.{docs_layout}
use kube_cell.Pages.RootLayout.{root_layout, root_metadata_of}
use kube_cell.Pages.Home.{home_page}
use kube_cell.Pages.Quickstart.{quickstart_page, metadata as quickstart_metadata}
use kube_cell.Pages.UseCases.{use_cases_page, metadata as use_cases_metadata}
use kube_cell.Pages.Architecture.{architecture_page, metadata as architecture_metadata}
use kube_cell.Pages.DocsOverview.{docs_overview_page, metadata as docs_overview_metadata}
use kube_cell.Pages.Concepts.{concepts_page, metadata as concepts_metadata}
use kube_cell.Pages.Installation.{installation_page, metadata as installation_metadata}
use kube_cell.Pages.FirstVirtualCluster.{
  first_virtual_cluster_page, metadata as first_virtual_cluster_metadata,
}
use kube_cell.Pages.HostOnboarding.{host_onboarding_page, metadata as host_onboarding_metadata}
use kube_cell.Pages.Operations.{operations_page, metadata as operations_metadata}
use kube_cell.Pages.ApiReference.{api_reference_page, metadata as api_reference_metadata}
use kube_cell.Pages.Security.{security_page, metadata as security_metadata}
use kube_cell.Pages.Troubleshooting.{troubleshooting_page, metadata as troubleshooting_metadata}
use kube_cell.Pages.DocsFaq.{faq_page_of, metadata as docs_faq_metadata}

-- A page: its path, the canonical address that its metadata gives, and the whole tree.
pub record SitePage : Type 0 where
  pub path : Text
  pub canonical : Option Text
  pub content : Node

-- `alternates.canonical` of metadata.
abbrev pub canonical_in : Json → Option Text
canonical_in metadata =
    string_in (member (units "canonical") (member (units "alternates") (some metadata)))

-- The parameters: `is_open` is the state of the menu of the header, `copied` that of the copy
-- buttons, and `address` gives the values of `absoluteUrl`; the home page has the metadata of the
-- frame.
module _ (cn : ClassNames) (env : Option Text) (is_open : Bool) (year : ℕ) (copied : Bool)
    (address : Text → Text) where
  -- A page in the frame.
  unfoldable pub page_at : Text → Option Text → Node → SitePage
  page_at path canonical page = record {
    path = path;
    canonical = canonical;
    content = root_layout cn env path is_open year address (page ∷ []);
  }

  unfoldable pub docs_page_at : Text → Option Text → Node → SitePage
  unfolding page_at
  docs_page_at path canonical page = page_at path canonical (docs_layout cn path (page ∷ []))

  unfoldable pub site_pages : List SitePage
  unfolding page_at docs_page_at
  site_pages =
      page_at (units "/") (canonical_in (root_metadata_of env address))
        (home_page cn env copied address)
      ∷ page_at (units "/quickstart/") (some quickstart_metadata.canonical)
          (quickstart_page cn copied address)
      ∷ page_at (units "/use-cases/") (some use_cases_metadata.canonical)
          (use_cases_page cn copied address)
      ∷ page_at (units "/architecture/") (some architecture_metadata.canonical)
          (architecture_page cn copied address)
      ∷ docs_page_at (units "/docs/") (some docs_overview_metadata.canonical)
          (docs_overview_page cn)
      ∷ docs_page_at (units "/docs/concepts/") (some concepts_metadata.canonical)
          (concepts_page cn copied)
      ∷ docs_page_at (units "/docs/installation/") (some installation_metadata.canonical)
          (installation_page cn copied)
      ∷ docs_page_at (units "/docs/first-virtualcluster/")
          (some first_virtual_cluster_metadata.canonical) (first_virtual_cluster_page cn copied)
      ∷ docs_page_at (units "/docs/host-onboarding/") (some host_onboarding_metadata.canonical)
          (host_onboarding_page cn copied)
      ∷ docs_page_at (units "/docs/operations/") (some operations_metadata.canonical)
          (operations_page cn copied)
      ∷ docs_page_at (units "/docs/api-reference/") (some api_reference_metadata.canonical)
          (api_reference_page cn copied)
      ∷ docs_page_at (units "/docs/security/") (some security_metadata.canonical)
          (security_page cn copied)
      ∷ docs_page_at (units "/docs/troubleshooting/") (some troubleshooting_metadata.canonical)
          (troubleshooting_page cn copied)
      ∷ docs_page_at (units "/docs/faq/") (some docs_faq_metadata.canonical)
          (faq_page_of cn address)
      ∷ []
