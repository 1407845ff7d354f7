-- ===== src/Witnesses/Whole.antt =====
-- The theorems on the site as a whole, on JSON and on the files of the build, at concrete inputs.
use kube_cell.Common.{
  true, false, List, [], ◌∷◌, ◌++◌, none, some, Text, units, ◌≡◌, ◌≢◌, refl, Bool, Bool-cases, inl,
  inr, sym, ◌∙◌, text_eq_refl, text_eq_iff, map, all, any, take, String, str_eq, text_eq,
  if◌then◌else◌, ◌==◌, ap, arith,
}
use kube_cell.Dom.Reading.{texts_of, scripts}
use kube_cell.Home.ArchitectureBeam.{architecture_beam}
use kube_cell.Home.ArchitectureBeam.Refs.{attached, handed_on, each_once, architecture_beam-refs}
use kube_cell.Home.FaqPreview.{faq_preview}
use kube_cell.Pages.Announced.{names_announced}
use kube_cell.Pages.DocsFaq.{faq_page_of, metadata as docs_faq_metadata}
use kube_cell.Pages.DocsFaq.Shown.{faq_announced}
use kube_cell.Highlight.Comments.{find_comment_start, find_go_comment_start}
use kube_cell.Highlight.Comments.Bounds.{MarkerAt, comment_starts-MarkerAt}
use kube_cell.Highlight.Line.{highlight_line}
use kube_cell.Highlight.TokenTypes.{highlight_line-has_type}
use kube_cell.Highlight.TokenTypes.Loops.{has_type}
use kube_cell.Highlight.Types.{Token, token, bash, command, flag, plain, comment}
use kube_cell.Json.{strings_at}
use kube_cell.Components.JsonLd.Announced.{announced}
use kube_cell.Components.JsonLd.Safety.{has_less}
use kube_cell.Links.Site.{SitePage, site_pages}
use kube_cell.Links.Site.Anchors.{anchors_by_path, distinct, site_pages-anchors_distinct}
use kube_cell.Links.Site.Arrivals.{LinksArrive, site_pages-LinksArrive}
use kube_cell.Links.Site.Routes.{site_pages-routes}
use kube_cell.Links.Site.Scripts.Safety.{no_less, site_pages-no_less}
use kube_cell.Nav.{docs_flat, docs_nav}
use kube_cell.Pages.Architecture.{metadata as architecture_metadata}
use kube_cell.Pages.Quickstart.{how_to_ld_of, quickstart_page, metadata as quickstart_metadata}
use kube_cell.Pages.UseCases.{item_list_ld_of, use_cases_page, metadata as use_cases_metadata}
use kube_cell.Seo.{Route, routes, static_routes, doc_routes, sitemap, robots, manifest_text}
use kube_cell.Seo.Ended.{generate_ended, generate_ends}
use kube_cell.Seo.Files.{generate_refused}
use kube_cell.Seo.Writing.{Files, Write, generate}
use kube_cell.Site.Config.{Resolve}
use kube_cell.Witnesses.{given_names, appended}

abbrev as_path : Text → Text
as_path path = path

abbrev shown_pages : List SitePage
shown_pages = site_pages given_names none true 2026 false as_path

site_pages-LinksArrive_example : LinksArrive (anchors_by_path shown_pages) shown_pages
site_pages-LinksArrive_example = site_pages-LinksArrive given_names none true 2026 false as_path

site_pages-anchors_distinct_example :
    all (λ (entry : Text × List Text). distinct entry.1) (anchors_by_path shown_pages) ≡ true
site_pages-anchors_distinct_example =
    site_pages-anchors_distinct given_names none true 2026 false as_path

site_pages-routes_example :
    (map (λ (page : SitePage). page.path) shown_pages ≡ map (λ (route : Route). route.path) routes)
    × (map (λ (page : SitePage). page.canonical) shown_pages
        ≡ map (λ (route : Route). some route.path) routes)
site_pages-routes_example = site_pages-routes given_names none true 2026 false as_path

comment_starts-MarkerAt_example :
    MarkerAt (units "#") (units "x := 1 // #1") (find_comment_start (units "x := 1 // #1"))
    × MarkerAt (units "//") (units "x := 1 // #1") (find_go_comment_start (units "x := 1 // #1"))
comment_starts-MarkerAt_example = comment_starts-MarkerAt (units "x := 1 // #1")

-- A base that is no URL.
abbrev refusing : Resolve
refusing path base = none

names_announced_example :
    (strings_at (units "name") (how_to_ld_of given_names false as_path)
      ≡ units "Provision your first KubeCell VirtualCluster"
        ∷ take 6 (texts_of "h2" (quickstart_page given_names false as_path)))
    × (strings_at (units "name") (item_list_ld_of as_path)
        ≡ units "KubeCell use cases"
          ∷ take 5 (texts_of "h2" (use_cases_page given_names false as_path)))
names_announced_example = names_announced given_names false as_path

architecture_beam-refs_example :
    (all
        (λ (name : String). any (str_eq name) (attached (architecture_beam given_names none none)))
        (handed_on (architecture_beam given_names none none))
      ≡ true)
    × (each_once (attached (architecture_beam given_names none none)) ≡ true)
architecture_beam-refs_example = architecture_beam-refs given_names none none

abbrev shell_tokens : List Token
shell_tokens =
    token (units "ls") command
    ∷ token (units "-la") flag
    ∷ token (units " ") plain
    ∷ token (units "# all") comment
    ∷ []

highlight_line-has_type_example : all (λ (t : Token). has_type bash t.type) shell_tokens ≡ true
unfolding highlight_line
highlight_line-has_type_example =
    highlight_line-has_type (units "ls -la # all") bash shell_tokens refl

-- The characters of a path but `<`, behind the address of the site.
abbrev encoded : Text → Text
encoded [] = []
encoded (c ∷ s) = (if c == b'<' then units "%3C" else c ∷ []) ++ encoded s

encoded-no_less : (path : Text) → has_less (encoded path) ≡ false
unfolding has_less
encoded-no_less [] = refl
encoded-no_less (c ∷ s) = ground (arith, encoded-no_less s)

site_pages-no_less_example :
    all
      (λ (page : SitePage). all no_less (scripts page.content))
      (site_pages given_names none true 2026 false encoded)
    ≡ true
unfolding has_less
site_pages-no_less_example =
    site_pages-no_less given_names none true 2026 false encoded refl encoded-no_less

faq_announced_example :
    (announced (units "name") (scripts (faq_page_of given_names as_path))
      ≡ some (texts_of "AccordionTrigger" (faq_page_of given_names as_path)))
    × (announced (units "text") (scripts (faq_page_of given_names as_path))
        ≡ some (texts_of "AccordionContent" (faq_page_of given_names as_path)))
    × (texts_of "AccordionTrigger" (faq_preview given_names)
        ≡ take 5 (texts_of "AccordionTrigger" (faq_page_of given_names as_path)))
faq_announced_example = faq_announced given_names as_path

abbrev no_files : Files
no_files path = none

abbrev in_root : Text → Text
in_root path = b'/' ∷ path

abbrev put : Write
put path content files = (true, λ other. if text_eq other path then some content else files other)

put-keeps :
    (path content : Text) (before after : Files)
    → put path content before ≡ (true, after)
    → (after path ≡ some content) × ((other : Text) → other ≢ path → after other ≡ before other)
put-keeps path content before after h =
    let same = ap (λ (m : Bool × Files). m.1) h in
    (
      ap (λ (f : Files). f path) (sym same)
          ∙ ap (λ b. if b then some content else before path) (text_eq_refl path),
      λ other apart.
          ap (λ (f : Files). f other) (sym same) ∙ elim (Bool-cases (text_eq other path)) [
            | inl e ↦ absurd (apart ((text_eq_iff other path).0 e))
            | inr e ↦ ap (λ b. if b then some content else before other) e
          ],
    )

-- The three files are distinct.
paths_apart :
    (units "/app/sitemap.xml" ≢ units "/app/robots.txt")
    × (units "/app/sitemap.xml" ≢ units "/app/manifest.webmanifest")
    × (units "/app/robots.txt" ≢ units "/app/manifest.webmanifest")
paths_apart = (
  λ e. let same = ap (text_eq (units "/app/sitemap.xml")) e in cc,
  λ e. let same = ap (text_eq (units "/app/sitemap.xml")) e in cc,
  λ e. let same = ap (text_eq (units "/app/robots.txt")) e in cc,
)

pair_of : (m : Bool × Files) → m.0 ≡ true → m ≡ (true, m.1)
pair_of (true, files) h = refl
pair_of (false, files) h = cc

appended_ends : (generate appended in_root put none (units "2026-01-01") no_files).0 ≡ true
unfolding routes static_routes doc_routes docs_flat docs_nav
appended_ends =
    generate_ends appended in_root put none (units "2026-01-01") no_files refl
      (λ path content before. refl)

generate_refused_example :
    generate refusing in_root put (some (units "kubecell")) (units "2026-01-01") no_files
    ≡ (false, no_files)
unfolding routes static_routes
generate_refused_example =
    generate_refused refusing in_root put (some (units "kubecell")) (units "2026-01-01") no_files
      refl

generate_ends_example : (generate appended in_root put none (units "2026-01-01") no_files).0 ≡ true
unfolding routes static_routes doc_routes docs_flat docs_nav
generate_ends_example =
    generate_ends appended in_root put none (units "2026-01-01") no_files refl
      (λ path content before. refl)

abbrev written_files : Files
written_files = (generate appended in_root put none (units "2026-01-01") no_files).1

generate_ended_example :
    (sitemap appended none (units "2026-01-01") ≡ written_files (units "/app/sitemap.xml"))
    × (robots appended none ≡ written_files (units "/app/robots.txt"))
    × (written_files (units "/app/manifest.webmanifest") ≡ some (manifest_text none))
    × ((other : Text)
        → other ≢ units "/app/sitemap.xml"
        → other ≢ units "/app/robots.txt"
        → other ≢ units "/app/manifest.webmanifest"
        → written_files other ≡ no_files other)
generate_ended_example =
    generate_ended appended in_root put none (units "2026-01-01") no_files written_files
      paths_apart.0 paths_apart.1 paths_apart.2 put-keeps (pair_of _ appended_ends)
