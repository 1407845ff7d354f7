-- ===== src/Links/Site/Arrivals.antt =====
-- Where the links of every page of the site arrive.
use kube_cell.Common.{
  ℕ, Bool, true, ◌||◌, ◌&&◌, List, [], ◌∷◌, Option, none, some, Text, units, text_eq, starts_with,
  ◌≡◌, refl, if◌then◌else◌, all, any, All, ◌==◌,
}
use kube_cell.Components.CodeBlock.NoLinks.{code_block-links}
use kube_cell.Dom.{ClassNames}
use kube_cell.Dom.Reading.{links}
use kube_cell.Home.CodeShowcase.{code_showcase}
use kube_cell.Layout.DocsNav.{docs_pager, docs_sidebar, docs_mobile_nav}
use kube_cell.Layout.Footer.{site_footer}
use kube_cell.Layout.Header.{site_header}
use kube_cell.Links.{before_hash}
use kube_cell.Links.Site.{SitePage, page_at, docs_page_at, site_pages}
use kube_cell.Links.Site.Anchors.{Anchors, anchors_by_path, written_anchors, site_pages-anchors}
use kube_cell.Nav.{docs_flat, docs_nav}
use kube_cell.Pages.DocsLayout.{docs_layout}
use kube_cell.Pages.RootLayout.{root_layout}
use kube_cell.Pages.Home.{home_page}
use kube_cell.Pages.Quickstart.{steps, quickstart_page}
use kube_cell.Pages.UseCases.{use_cases, use_cases_page}
use kube_cell.Pages.Architecture.{architecture_page}
use kube_cell.Pages.DocsOverview.{docs_overview_page}
use kube_cell.Pages.Concepts.{concepts_page}
use kube_cell.Pages.Installation.{installation_page}
use kube_cell.Pages.FirstVirtualCluster.{first_virtual_cluster_page}
use kube_cell.Pages.HostOnboarding.{host_onboarding_page}
use kube_cell.Pages.Operations.{operations_page}
use kube_cell.Pages.ApiReference.{api_reference_page}
use kube_cell.Pages.Security.{security_page}
use kube_cell.Pages.Troubleshooting.{troubleshooting_page}
use kube_cell.Pages.DocsFaq.{faq_page_of}

-- The fragment of a link.
abbrev after_hash : Text → Option Text
after_hash [] = none
after_hash (c ∷ s) = let later = after_hash s in if c == b'#' then some s else later

abbrev has_anchor : Option Text → List Text → Bool
has_anchor none present = true
has_anchor (some fragment) present = any (text_eq fragment) present

-- The page to which a link on the page at `path` leads.
abbrev target_path : Text → Text → Text
target_path path target = if starts_with target (b'#' ∷ []) then path else before_hash target

-- A link on the page at `path` leads to another site, or to a page of the table, and to an anchor
-- of that page if it has a fragment.
unfoldable pub arrives : Anchors → Text → Text → Bool
arrives table path target =
    starts_with target (units "https://")
    || any
        (λ (entry : Text × List Text).
          text_eq entry.0 (target_path path target) && has_anchor (after_hash target) entry.1)
        table

Arrives : Anchors → SitePage → Type 0
Arrives table page = all (arrives table page.path) (links page.content) ≡ true

-- Each link of each page arrives.
unfoldable pub LinksArrive : Anchors → List SitePage → Type 0
unfolding Arrives
LinksArrive table pages = All (Arrives table) pages

module _ (cn : ClassNames) (env : Option Text) (is_open : Bool) (year : ℕ) (copied : Bool)
    (address : Text → Text) where
  home_page-Arrives :
      (canonical : Option Text)
      → Arrives written_anchors (
          page_at cn env is_open year copied address
            (units "/")
            canonical
            (home_page cn env copied address))
  unfolding Arrives arrives links page_at root_layout site_header site_footer docs_flat docs_nav
      home_page code_showcase
  home_page-Arrives canonical = simp (code_block-links)

  quickstart_page-Arrives :
      (canonical : Option Text)
      → Arrives written_anchors (
          page_at cn env is_open year copied address
            (units "/quickstart/")
            canonical
            (quickstart_page cn copied address))
  unfolding Arrives arrives links page_at root_layout site_header site_footer docs_flat docs_nav
      quickstart_page steps
  quickstart_page-Arrives canonical = simp (code_block-links)

  use_cases_page-Arrives :
      (canonical : Option Text)
      → Arrives written_anchors (
          page_at cn env is_open year copied address
            (units "/use-cases/")
            canonical
            (use_cases_page cn copied address))
  unfolding Arrives arrives links page_at root_layout site_header site_footer docs_flat docs_nav
      use_cases_page use_cases
  use_cases_page-Arrives canonical = simp (code_block-links)

  architecture_page-Arrives :
      (canonical : Option Text)
      → Arrives written_anchors (
          page_at cn env is_open year copied address
            (units "/architecture/")
            canonical
            (architecture_page cn copied address))
  unfolding Arrives arrives links page_at root_layout site_header site_footer docs_flat docs_nav
      architecture_page
  architecture_page-Arrives canonical = simp (code_block-links)

  docs_overview_page-Arrives :
      (canonical : Option Text)
      → Arrives written_anchors (
          docs_page_at cn env is_open year copied address
            (units "/docs/")
            canonical
            (docs_overview_page cn))
  unfolding Arrives arrives links page_at root_layout site_header site_footer docs_page_at
      docs_layout docs_sidebar docs_mobile_nav docs_pager docs_nav docs_flat docs_overview_page
  docs_overview_page-Arrives canonical = refl

  concepts_page-Arrives :
      (canonical : Option Text)
      → Arrives written_anchors (
          docs_page_at cn env is_open year copied address
            (units "/docs/concepts/")
            canonical
            (concepts_page cn copied))
  unfolding Arrives arrives links page_at root_layout site_header site_footer docs_page_at
      docs_layout docs_sidebar docs_mobile_nav docs_pager docs_nav docs_flat concepts_page
  concepts_page-Arrives canonical = simp (code_block-links)

  installation_page-Arrives :
      (canonical : Option Text)
      → Arrives written_anchors (
          docs_page_at cn env is_open year copied address
            (units "/docs/installation/")
            canonical
            (installation_page cn copied))
  unfolding Arrives arrives links page_at root_layout site_header site_footer docs_page_at
      docs_layout docs_sidebar docs_mobile_nav docs_pager docs_nav docs_flat installation_page
  installation_page-Arrives canonical = simp (code_block-links)

  first_virtual_cluster_page-Arrives :
      (canonical : Option Text)
      → Arrives written_anchors (
          docs_page_at cn env is_open year copied address
            (units "/docs/first-virtualcluster/")
            canonical
            (first_virtual_cluster_page cn copied))
  unfolding Arrives arrives links page_at root_layout site_header site_footer docs_page_at
      docs_layout docs_sidebar docs_mobile_nav docs_pager docs_nav docs_flat
      first_virtual_cluster_page
  first_virtual_cluster_page-Arrives canonical = simp (code_block-links)

  host_onboarding_page-Arrives :
      (canonical : Option Text)
      → Arrives written_anchors (
          docs_page_at cn env is_open year copied address
            (units "/docs/host-onboarding/")
            canonical
            (host_onboarding_page cn copied))
  unfolding Arrives arrives links page_at root_layout site_header site_footer docs_page_at
      docs_layout docs_sidebar docs_mobile_nav docs_pager docs_nav docs_flat host_onboarding_page
  host_onboarding_page-Arrives canonical = simp (code_block-links)

  operations_page-Arrives :
      (canonical : Option Text)
      → Arrives written_anchors (
          docs_page_at cn env is_open year copied address
            (units "/docs/operations/")
            canonical
            (operations_page cn copied))
  unfolding Arrives arrives links page_at root_layout site_header site_footer docs_page_at
      docs_layout docs_sidebar docs_mobile_nav docs_pager docs_nav docs_flat operations_page
  operations_page-Arrives canonical = simp (code_block-links)

  api_reference_page-Arrives :
      (canonical : Option Text)
      → Arrives written_anchors (
          docs_page_at cn env is_open year copied address
            (units "/docs/api-reference/")
            canonical
            (api_reference_page cn copied))
  unfolding Arrives arrives links page_at root_layout site_header site_footer docs_page_at
      docs_layout docs_sidebar docs_mobile_nav docs_pager docs_nav docs_flat api_reference_page
  api_reference_page-Arrives canonical = simp (code_block-links)

  security_page-Arrives :
      (canonical : Option Text)
      → Arrives written_anchors (
          docs_page_at cn env is_open year copied address
            (units "/docs/security/")
            canonical
            (security_page cn copied))
  unfolding Arrives arrives links page_at root_layout site_header site_footer docs_page_at
      docs_layout docs_sidebar docs_mobile_nav docs_pager docs_nav docs_flat security_page
  security_page-Arrives canonical = simp (code_block-links)

  troubleshooting_page-Arrives :
      (canonical : Option Text)
      → Arrives written_anchors (
          docs_page_at cn env is_open year copied address
            (units "/docs/troubleshooting/")
            canonical
            (troubleshooting_page cn copied))
  unfolding Arrives arrives links page_at root_layout site_header site_footer docs_page_at
      docs_layout docs_sidebar docs_mobile_nav docs_pager docs_nav docs_flat troubleshooting_page
  troubleshooting_page-Arrives canonical = simp (code_block-links)

  faq_page_of-Arrives :
      (canonical : Option Text)
      → Arrives written_anchors (
          docs_page_at cn env is_open year copied address
            (units "/docs/faq/")
            canonical
            (faq_page_of cn address))
  unfolding Arrives arrives links page_at root_layout site_header site_footer docs_page_at
      docs_layout docs_sidebar docs_mobile_nav docs_pager docs_nav docs_flat faq_page_of
  faq_page_of-Arrives canonical = refl

  written-LinksArrive : LinksArrive written_anchors (site_pages cn env is_open year copied address)
  unfolding LinksArrive site_pages Arrives page_at docs_page_at
  written-LinksArrive = (
    home_page-Arrives none,
    (
      quickstart_page-Arrives none,
      (
        use_cases_page-Arrives none,
        (
          architecture_page-Arrives none,
          (
            docs_overview_page-Arrives none,
            (
              concepts_page-Arrives none,
              (
                installation_page-Arrives none,
                (
                  first_virtual_cluster_page-Arrives none,
                  (
                    host_onboarding_page-Arrives none,
                    (
                      operations_page-Arrives none,
                      (
                        api_reference_page-Arrives none,
                        (
                          security_page-Arrives none,
                          (troubleshooting_page-Arrives none, (faq_page_of-Arrives none, tt)),
                        ),
                      ),
                    ),
                  ),
                ),
              ),
            ),
          ),
        ),
      ),
    ),
  )

-- Every link of every page of the site, in the frame and the layout of its folder, leads to another
-- site or to a page of the site, and a link with a fragment to an anchor that this page has, in
-- every state of the menu and of the copy buttons.
pub site_pages-LinksArrive :
    (cn : ClassNames) (env : Option Text) (is_open : Bool) (year : ℕ) (copied : Bool)
    (address : Text → Text)
    → LinksArrive
        (anchors_by_path (site_pages cn env is_open year copied address))
        (site_pages cn env is_open year copied address)
site_pages-LinksArrive cn env is_open year copied address =
    rw (site_pages-anchors cn env is_open year copied address)
      (written-LinksArrive cn env is_open year copied address)
