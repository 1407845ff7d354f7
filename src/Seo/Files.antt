-- ===== src/Seo/Files.antt =====
-- The files that the build writes: none of them if an address is refused, and otherwise all.
use kube_cell.Common.{
  Bool, true, false, ◌||◌, List, [], ◌∷◌, Option, none, some, Text, units, ◌≡◌, refl, any,
  Option-cases, inl, inr, or-true,
}
use kube_cell.Seo.{
  Route, routes, entries, entry_lines, outputs, sitemap, sitemap_for, sitemap_text, robots_text,
  robots, manifest_text,
}
use kube_cell.Seo.Writing.{Files, Write, generate}
use kube_cell.Components.CodeBlock.{join_lines}
use kube_cell.Site.Config.{Resolve, site_config, site_url}

abbrev pub is_none : Option Text → Bool
is_none none = true
is_none (some url) = false

-- `new URL` refuses the path of a route.
abbrev pub is_refused : Resolve → Text → Route → Bool
is_refused resolve base route = is_none (resolve route.path base)

entries_refused :
    (resolve : Resolve) (base lastmod : Text) (pages : List Route)
    → any (is_refused resolve base) pages ≡ true
    → entries resolve base lastmod pages ≡ none
unfolding entries
entries_refused resolve base lastmod [] h = absurd (cc)
entries_refused resolve base lastmod (route ∷ pages) h =
    elim (Option-cases (resolve route.path base)) [
      | inl e ↦ rw e refl
      | inr (url, e) ↦
          let later = entries_refused resolve base lastmod pages (rw e at h) in rw (e, later) refl
    ]

sitemap_refused :
    (resolve : Resolve) (env : Option Text) (lastmod : Text)
    → any (is_refused resolve (site_url env)) routes ≡ true
    → sitemap resolve env lastmod ≡ none
unfolding sitemap sitemap_for site_config
sitemap_refused resolve env lastmod h =
    rw (entries_refused resolve (site_url env) lastmod routes h) refl

robots_refused :
    (resolve : Resolve) (env : Option Text)
    → is_none (resolve (units "/sitemap.xml") (site_url env)) ≡ true
    → robots resolve env ≡ none
unfolding robots site_config
robots_refused resolve env h = elim (Option-cases (resolve (units "/sitemap.xml") (site_url env))) [
  | inl e ↦ rw e refl
  | inr (url, e) ↦ let false_h = rw e at h in cc
]

pub first_refused :
    (resolve : Resolve) (env : Option Text) (lastmod : Text)
    → sitemap resolve env lastmod ≡ none
    → outputs resolve env lastmod ≡ none
unfolding outputs
first_refused resolve env lastmod e = rw e refl

pub second_refused :
    (resolve : Resolve) (env : Option Text) (lastmod : Text)
    → robots resolve env ≡ none
    → outputs resolve env lastmod ≡ none
unfolding outputs
second_refused resolve env lastmod e = elim (Option-cases (sitemap resolve env lastmod)) [
  | inl none_listed ↦ rw none_listed refl
  | inr (listed, given) ↦ rw (given, e) refl
]

-- `new URL` refuses the address of the site map or of a route.
abbrev pub some_refused : Resolve → Option Text → Bool
some_refused resolve env =
    any (is_refused resolve (site_url env)) routes
    || is_none (resolve (units "/sitemap.xml") (site_url env))

outputs_refused :
    (resolve : Resolve) (env : Option Text) (lastmod : Text)
    → some_refused resolve env ≡ true
    → outputs resolve env lastmod ≡ none
outputs_refused resolve env lastmod h = elim (or-true _ _ h) [
  | inl e ↦ first_refused resolve env lastmod (sitemap_refused resolve env lastmod e)
  | inr e ↦ second_refused resolve env lastmod (robots_refused resolve env e)
]

-- If the URL constructor refuses the address of the site map or of any route, the script does not
-- come to its end and leaves all files as they are.
pub generate_refused :
    (resolve : Resolve) (target : Text → Text) (write : Write) (env : Option Text) (lastmod : Text)
    (files : Files)
    → some_refused resolve env ≡ true
    → generate resolve target write env lastmod files ≡ (false, files)
unfolding generate
generate_refused resolve target write env lastmod files h =
    rw (outputs_refused resolve env lastmod h) refl

entries_given :
    (resolve : Resolve) (base lastmod : Text) (pages : List Route)
    → any (is_refused resolve base) pages ≡ false
    → (texts : List Text) × (entries resolve base lastmod pages ≡ some texts)
unfolding entries
entries_given resolve base lastmod [] h = ([], refl)
entries_given resolve base lastmod (route ∷ pages) h =
    elim (Option-cases (resolve route.path base)) [
      | inl e ↦ let false_h = rw e at h in cc
      | inr (url, e) ↦
          let (texts, made) = entries_given resolve base lastmod pages (rw e at h) in
          (join_lines (entry_lines lastmod route url) ∷ texts, rw (e, made) refl)
    ]

pub sitemap_given :
    (resolve : Resolve) (env : Option Text) (lastmod : Text)
    → any (is_refused resolve (site_url env)) routes ≡ false
    → (listed : Text) × (sitemap resolve env lastmod ≡ some listed)
unfolding sitemap sitemap_for site_config
sitemap_given resolve env lastmod h =
    let (texts, made) = entries_given resolve (site_url env) lastmod routes h in
    (sitemap_text texts, rw made refl)

pub robots_given :
    (resolve : Resolve) (env : Option Text)
    → is_none (resolve (units "/sitemap.xml") (site_url env)) ≡ false
    → (rules : Text) × (robots resolve env ≡ some rules)
unfolding robots site_config
robots_given resolve env h = elim (Option-cases (resolve (units "/sitemap.xml") (site_url env))) [
  | inl e ↦ let false_h = rw e at h in cc
  | inr (url, e) ↦ (robots_text (site_url env) url, rw e refl)
]

pub outputs_given :
    (resolve : Resolve) (env : Option Text) (lastmod listed rules : Text)
    → sitemap resolve env lastmod ≡ some listed
    → robots resolve env ≡ some rules
    → outputs resolve env lastmod
      ≡ some (
          (units "app/sitemap.xml", listed)
          ∷ (units "app/robots.txt", rules)
          ∷ (units "app/manifest.webmanifest", manifest_text env)
          ∷ [])
unfolding outputs
outputs_given resolve env lastmod listed rules e f = rw (e, f) refl
