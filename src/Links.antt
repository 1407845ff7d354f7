-- ===== src/Links.antt =====
-- Where the links of the frame of the site lead: the header, the footer and the navigation of the
-- documentation, which stand on the pages, against the routes that the build publishes.
pub mod Site
use kube_cell.Common.{
  ℕ, Bool, true, false, ◌||◌, List, [], ◌∷◌, ◌++◌, Option, none, some, Text, units, text_eq,
  starts_with, ◌≡◌, refl, if◌then◌else◌, map, all, all-append, append-nil, any, ◌==◌, Option-cases,
  inl, inr, zero, suc, and-true, ltb, ◌-◌, ◌+◌, length, get_elem?, ◌∙◌, ap,
}
use kube_cell.Dom.{Node, ClassNames, to_nodes}
use kube_cell.Dom.Reading.{links, links_of}
use kube_cell.Home.CallToAction.{call_to_action}
use kube_cell.Home.FaqPreview.{faq_preview}
use kube_cell.Home.UseCasePreview.{use_case_preview}
use kube_cell.Layout.DocsNav.{
  docs_pager, docs_sidebar, docs_mobile_nav, find_link, pager_for, pager_of,
}
use kube_cell.Layout.Footer.{site_footer}
use kube_cell.Layout.Header.{site_header}
use kube_cell.Nav.{
  DocLink, docs_flat, docs_nav, neighbors_at, neighbors_in, doc_neighbors, find_index,
}
use kube_cell.Pages.DocsLayout.{docs_layout}
use kube_cell.Pages.NotFound.{not_found}
use kube_cell.Seo.{Route, routes, static_routes, doc_routes}

-- The part of a link before its fragment.
abbrev pub before_hash : Text → Text
before_hash [] = []
before_hash (c ∷ s) = let rest = before_hash s in if c == b'#' then [] else c ∷ rest

-- A link that leads to another site, or to a page that the site map lists.
unfoldable pub leads_somewhere : Text → Bool
unfolding routes
leads_somewhere target =
    starts_with target (units "https://")
    || any (λ (route : Route). text_eq route.path (before_hash target)) routes

abbrev pub hrefs_of : List DocLink → List Text
hrefs_of docs = map (λ (doc : DocLink). doc.href) docs

-- On every page the sidebar and the mobile menu of the documentation link to the pages of the
-- documentation, each once and in the order of the table of contents.
pub docs_menus_links :
    (cn : ClassNames) (pathname : Text)
    → (links (docs_sidebar cn pathname) ≡ hrefs_of docs_flat)
      × (links (docs_mobile_nav cn pathname) ≡ hrefs_of docs_flat)
unfolding links docs_sidebar docs_mobile_nav docs_flat docs_nav
docs_menus_links cn pathname = (
  refl,
  elim (Option-cases (find_link pathname docs_flat)) [
    | inl e ↦ rw e refl
    | inr (current, e) ↦ rw e refl
  ],
)

abbrev good : Option DocLink → Bool
good none = true
good (some doc) = leads_somewhere doc.href

pager_for-links :
    (previous next : Option DocLink)
    → good previous ≡ true
    → good next ≡ true
    → all leads_somewhere (links (pager_for previous next)) ≡ true
unfolding links pager_for
pager_for-links none none p n = refl
pager_for-links (some a) none p n = rw p refl
pager_for-links none (some b) p n = rw n refl
pager_for-links (some a) (some b) p n = rw (p, n) refl

good_elem :
    (docs : List DocLink) (i : ℕ)
    → all (λ (doc : DocLink). leads_somewhere doc.href) docs ≡ true
    → good (get_elem? docs i) ≡ true
good_elem [] i h = refl
good_elem (doc ∷ docs) zero h = (and-true _ _ h).0
good_elem (doc ∷ docs) (suc i) h = good_elem docs i (and-true _ _ h).1

good_if : (b : Bool) (o : Option DocLink) → good o ≡ true → good (if b then o else none) ≡ true
good_if true o h = h
good_if false o h = refl

docs_flat_good : all (λ (doc : DocLink). leads_somewhere doc.href) docs_flat ≡ true
unfolding leads_somewhere routes static_routes doc_routes docs_flat docs_nav
docs_flat_good = refl

pager_of-links :
    (found : Option ℕ)
    → all leads_somewhere (links (pager_of (neighbors_at docs_flat found))) ≡ true
unfolding pager_of
pager_of-links none = pager_for-links none none refl refl
pager_of-links (some i) =
    pager_for-links _ _ (good_if (ltb 0 i) _ (good_elem docs_flat (i - 1) docs_flat_good))
      (good_if (ltb i (length docs_flat - 1)) _ (good_elem docs_flat (i + 1) docs_flat_good))

-- Every link of the pager leads to another site or to a route of the site map, on every page.
pub docs_pager-links : (pathname : Text) → all leads_somewhere (links (docs_pager pathname)) ≡ true
unfolding docs_pager doc_neighbors neighbors_in
docs_pager-links pathname = pager_of-links (find_index pathname docs_flat)

docs_hrefs_good : all leads_somewhere (hrefs_of docs_flat) ≡ true
unfolding leads_somewhere routes static_routes doc_routes docs_flat docs_nav
docs_hrefs_good = refl

-- The links of the parts of the layout, in its boxes.
in_boxes :
    (menu side content pager : List Text)
    → all leads_somewhere menu ≡ true
    → all leads_somewhere side ≡ true
    → all leads_somewhere content ≡ true
    → all leads_somewhere pager ≡ true
    → all leads_somewhere
        (menu ++ (side ++ [] ++ []) ++ (content ++ (pager ++ []) ++ []) ++ [] ++ [])
      ≡ true
in_boxes menu side content pager hm hs hc hp =
    rw (append-nil side, append-nil pager, append-nil (content ++ pager))
      (simp (all-append, hm, hs, hc, hp))

-- If every link of the content of a page of the documentation leads to another site or to a route of the site map,
-- then every link of the page in its layout does so.
pub docs_layout-links :
    (cn : ClassNames) (pathname : Text) (children : List Node)
    → all leads_somewhere (links_of (to_nodes children)) ≡ true
    → all leads_somewhere (links (docs_layout cn pathname children)) ≡ true
unfolding links docs_layout
docs_layout-links cn pathname children h =
    let (sidebar, mobile) = docs_menus_links cn pathname in
    in_boxes _ _ _ _ (ap (all leads_somewhere) mobile ∙ docs_hrefs_good)
      (ap (all leads_somewhere) sidebar ∙ docs_hrefs_good) h (docs_pager-links pathname)
