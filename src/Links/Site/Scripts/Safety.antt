-- ===== src/Links/Site/Scripts/Safety.antt =====
-- No script of the site can be left early: the characters in the scripts.
use kube_cell.Common.{
  ℕ, Bool, false, List, [], ◌∷◌, Option, Text, units, ◌≡◌, refl, map, all, not, true, ◌∙◌,
}
use kube_cell.Components.JsonLd.Safety.{has_less, json_has_less, has_less-stringify}
use kube_cell.Dom.{ClassNames}
use kube_cell.Dom.Reading.{scripts}
use kube_cell.Json.{Json, json_array, elements, stringify}
use kube_cell.Links.Site.{SitePage, site_pages}
use kube_cell.Links.Site.Scripts.{announced_data, site_pages-scripts}
use kube_cell.Pages.Architecture.{article_ld_of}
use kube_cell.Pages.DocsFaq.{faq_ld_at}
use kube_cell.Pages.Home.{software_ld_of}
use kube_cell.Pages.Quickstart.{steps, how_to_ld_of}
use kube_cell.Pages.RootLayout.{organization_ld_of, website_ld}
use kube_cell.Pages.UseCases.{use_cases, item_list_ld_of}
use kube_cell.Site.Config.{site_url, site_config}
use kube_cell.Site.Content.{faq_items}

abbrev pub no_less : Text → Bool
no_less s = not (has_less s)

abbrev is_clean : Json → Bool
is_clean j = not (json_has_less j)

module _ (cn : ClassNames) (env : Option Text) (copied : Bool) (address : Text → Text)
    (base_clean : has_less (site_url env) ≡ false)
    (addresses_clean : (path : Text) → has_less (address path) ≡ false) where
  frame_clean :
      json_has_less (json_array (elements (organization_ld_of env address ∷ website_ld env ∷ [])))
      ≡ false
  unfolding json_has_less has_less organization_ld_of website_ld site_config
  frame_clean = simp (base_clean, addresses_clean)

  software_clean : json_has_less (software_ld_of env address) ≡ false
  unfolding json_has_less has_less software_ld_of site_config
  software_clean = simp (addresses_clean)

  how_to_clean : json_has_less (how_to_ld_of cn copied address) ≡ false
  unfolding json_has_less has_less how_to_ld_of steps
  how_to_clean = simp (addresses_clean)

  item_list_clean : json_has_less (item_list_ld_of address) ≡ false
  unfolding json_has_less has_less item_list_ld_of use_cases
  item_list_clean = simp (addresses_clean)

  article_clean : json_has_less (article_ld_of address) ≡ false
  unfolding json_has_less has_less article_ld_of
  article_clean = simp (addresses_clean)

  faq_clean : json_has_less (faq_ld_at (address (units "/docs/faq/"))) ≡ false
  unfolding json_has_less has_less faq_ld_at faq_items
  faq_clean = simp (addresses_clean)

  data_clean : all (all is_clean) (announced_data cn env copied address) ≡ true
  data_clean =
      rw (frame_clean, software_clean, how_to_clean, item_list_clean, article_clean, faq_clean) refl

clean_each : (js : List Json) → all no_less (map stringify js) ≡ all is_clean js
clean_each [] = refl
clean_each (j ∷ js) = rw (has_less-stringify j, clean_each js) refl

clean_pages :
    (pages : List (List Json))
    → all (all no_less) (map (map stringify) pages) ≡ all (all is_clean) pages
clean_pages [] = refl
clean_pages (js ∷ pages) = rw (clean_each js, clean_pages pages) refl

clean_site :
    (pages : List SitePage)
    → all (λ (page : SitePage). all no_less (scripts page.content)) pages
      ≡ all (all no_less) (map (λ (page : SitePage). scripts page.content) pages)
clean_site [] = refl
clean_site (page ∷ pages) = rw (clean_site pages) refl

-- If neither the address of the site nor an address that `absoluteUrl` gives has a `<`, then no
-- script of a page of the site has one, so that nothing in its data ends the script element.
pub site_pages-no_less :
    (cn : ClassNames) (env : Option Text) (is_open : Bool) (year : ℕ) (copied : Bool)
    (address : Text → Text)
    → has_less (site_url env) ≡ false
    → ((path : Text) → has_less (address path) ≡ false)
    → all
        (λ (page : SitePage). all no_less (scripts page.content))
        (site_pages cn env is_open year copied address)
      ≡ true
site_pages-no_less cn env is_open year copied address base_clean addresses_clean =
    clean_site (site_pages cn env is_open year copied address)
    ∙ rw (site_pages-scripts cn env is_open year copied address) (
        clean_pages (announced_data cn env copied address)
        ∙ data_clean cn env copied address base_clean addresses_clean)
