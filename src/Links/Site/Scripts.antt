-- ===== src/Links/Site/Scripts.antt =====
-- The scripts of every page of the site: the structured data that it announces.
pub mod Safety
use kube_cell.Common.{ℕ, Bool, List, [], ◌∷◌, Option, Text, units, ◌≡◌, refl, map}
use kube_cell.Components.CodeBlock.NoLinks.{code_block-scripts}
use kube_cell.Components.JsonLd.{json_ld}
use kube_cell.Dom.{ClassNames}
use kube_cell.Dom.Reading.{scripts}
use kube_cell.Json.{Json, json_array, elements, stringify}
use kube_cell.Home.CodeShowcase.{code_showcase}
use kube_cell.Layout.DocsNav.{docs_pager, docs_sidebar, docs_mobile_nav}
use kube_cell.Layout.Footer.{site_footer}
use kube_cell.Layout.Header.{site_header}
use kube_cell.Links.Site.{SitePage, page_at, docs_page_at, site_pages}
use kube_cell.Pages.DocsLayout.{docs_layout}
use kube_cell.Pages.RootLayout.{root_layout, organization_ld_of, website_ld}
use kube_cell.Pages.Home.{software_ld_of, home_page}
use kube_cell.Pages.Quickstart.{how_to_ld_of, quickstart_page}
use kube_cell.Pages.UseCases.{item_list_ld_of, use_cases_page}
use kube_cell.Pages.Architecture.{article_ld_of, architecture_page}
use kube_cell.Pages.DocsOverview.{docs_overview_page}
use kube_cell.Pages.Concepts.{concepts_page}
use kube_cell.Pages.Installation.{installation_page}
use kube_cell.Pages.FirstVirtualCluster.{first_virtual_cluster_page}
use kube_cell.Pages.HostOnboarding.{host_onboarding_page}
use kube_cell.Pages.Operations.{operations_page}
use kube_cell.Pages.ApiReference.{api_reference_page}
use kube_cell.Pages.Security.{security_page}
use kube_cell.Pages.Troubleshooting.{troubleshooting_page}
use kube_cell.Pages.DocsFaq.{faq_ld_at, faq_page_of}

pub home_page-scripts :
    (cn : ClassNames) (env : Option Text) (copied : Bool) (address : Text → Text)
    → scripts (home_page cn env copied address) ≡ stringify (software_ld_of env address) ∷ []
unfolding scripts home_page code_showcase json_ld
home_page-scripts cn env copied address = simp (code_block-scripts)

pub quickstart_page-scripts :
    (cn : ClassNames) (copied : Bool) (address : Text → Text)
    → scripts (quickstart_page cn copied address) ≡ stringify (how_to_ld_of cn copied address) ∷ []
unfolding scripts quickstart_page json_ld
quickstart_page-scripts cn copied address = simp (code_block-scripts)

pub use_cases_page-scripts :
    (cn : ClassNames) (copied : Bool) (address : Text → Text)
    → scripts (use_cases_page cn copied address) ≡ stringify (item_list_ld_of address) ∷ []
unfolding scripts use_cases_page json_ld
use_cases_page-scripts cn copied address = simp (code_block-scripts)

pub architecture_page-scripts :
    (cn : ClassNames) (copied : Bool) (address : Text → Text)
    → scripts (architecture_page cn copied address) ≡ stringify (article_ld_of address) ∷ []
unfolding scripts architecture_page json_ld
architecture_page-scripts cn copied address = simp (code_block-scripts)

docs_overview_page-scripts : (cn : ClassNames) → scripts (docs_overview_page cn) ≡ []
unfolding scripts docs_overview_page
docs_overview_page-scripts cn = refl

concepts_page-scripts : (cn : ClassNames) (copied : Bool) → scripts (concepts_page cn copied) ≡ []
unfolding scripts concepts_page
concepts_page-scripts cn copied = simp (code_block-scripts)

installation_page-scripts :
    (cn : ClassNames) (copied : Bool) → scripts (installation_page cn copied) ≡ []
unfolding scripts installation_page
installation_page-scripts cn copied = simp (code_block-scripts)

first_virtual_cluster_page-scripts :
    (cn : ClassNames) (copied : Bool) → scripts (first_virtual_cluster_page cn copied) ≡ []
unfolding scripts first_virtual_cluster_page
first_virtual_cluster_page-scripts cn copied = simp (code_block-scripts)

host_onboarding_page-scripts :
    (cn : ClassNames) (copied : Bool) → scripts (host_onboarding_page cn copied) ≡ []
unfolding scripts host_onboarding_page
host_onboarding_page-scripts cn copied = simp (code_block-scripts)

operations_page-scripts :
    (cn : ClassNames) (copied : Bool) → scripts (operations_page cn copied) ≡ []
unfolding scripts operations_page
operations_page-scripts cn copied = simp (code_block-scripts)

api_reference_page-scripts :
    (cn : ClassNames) (copied : Bool) → scripts (api_reference_page cn copied) ≡ []
unfolding scripts api_reference_page
api_reference_page-scripts cn copied = simp (code_block-scripts)

security_page-scripts : (cn : ClassNames) (copied : Bool) → scripts (security_page cn copied) ≡ []
unfolding scripts security_page
security_page-scripts cn copied = simp (code_block-scripts)

troubleshooting_page-scripts :
    (cn : ClassNames) (copied : Bool) → scripts (troubleshooting_page cn copied) ≡ []
unfolding scripts troubleshooting_page
troubleshooting_page-scripts cn copied = simp (code_block-scripts)

pub faq_page_of-scripts :
    (cn : ClassNames) (address : Text → Text)
    → scripts (faq_page_of cn address) ≡ stringify (faq_ld_at (address (units "/docs/faq/"))) ∷ []
unfolding scripts faq_page_of json_ld
faq_page_of-scripts cn address = refl

-- The data of the frame and then that of the page, for each page of the site.
abbrev pub announced_data : ClassNames → Option Text → Bool → (Text → Text) → List (List Json)
announced_data cn env copied address =
    let framed = json_array (elements (organization_ld_of env address ∷ website_ld env ∷ [])) in
    (framed ∷ software_ld_of env address ∷ [])
    ∷ (framed ∷ how_to_ld_of cn copied address ∷ [])
    ∷ (framed ∷ item_list_ld_of address ∷ [])
    ∷ (framed ∷ article_ld_of address ∷ [])
    ∷ (framed ∷ [])
    ∷ (framed ∷ [])
    ∷ (framed ∷ [])
    ∷ (framed ∷ [])
    ∷ (framed ∷ [])
    ∷ (framed ∷ [])
    ∷ (framed ∷ [])
    ∷ (framed ∷ [])
    ∷ (framed ∷ [])
    ∷ (framed ∷ faq_ld_at (address (units "/docs/faq/")) ∷ [])
    ∷ []

module _ (cn : ClassNames) (env : Option Text) (is_open : Bool) (year : ℕ) (copied : Bool)
    (address : Text → Text) where
  pub site_pages-scripts :
      map
        (λ (page : SitePage). scripts page.content)
        (site_pages cn env is_open year copied address)
      ≡ map (map stringify) (announced_data cn env copied address)
  unfolding scripts site_pages page_at docs_page_at root_layout docs_layout json_ld site_header
      site_footer docs_sidebar docs_mobile_nav docs_pager
  site_pages-scripts =
      rw
        (
          home_page-scripts cn env copied address,
          quickstart_page-scripts cn copied address,
          use_cases_page-scripts cn copied address,
          architecture_page-scripts cn copied address,
          docs_overview_page-scripts cn,
          concepts_page-scripts cn copied,
          installation_page-scripts cn copied,
          first_virtual_cluster_page-scripts cn copied,
          host_onboarding_page-scripts cn copied,
          operations_page-scripts cn copied,
          api_reference_page-scripts cn copied,
          security_page-scripts cn copied,
          troubleshooting_page-scripts cn copied,
          faq_page_of-scripts cn address,
        )
        refl
