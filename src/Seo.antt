-- ===== src/Seo.antt =====
-- website/scripts/generate-seo.ts: the site map, robots.txt and the web manifest that the build writes. The day
-- `lastmod` is a parameter, and so is `new URL(path, base).toString()`, whose exception is `none`.
pub mod Locations
pub mod Writing
pub mod Files
pub mod Ended
use kube_cell.Common.{
  ℕ, List, [], ◌∷◌, ◌++◌, Option, none, some, Text, units, ◌+◌, ◌/◌, ◌%◌, ◌==◌, if◌then◌else◌, map,
  ◌>>=◌,
}
use kube_cell.Components.CodeBlock.{join_lines}
use kube_cell.Dom.{map_index}
use kube_cell.Json.{Json, json_string, json_array, json_object, elements, members, stringify_pretty}
use kube_cell.Nav.{DocLink, docs_flat}
use kube_cell.Site.Config.{Resolve, site_config}

pub data ChangeFrequency : Type 0 where
  weekly monthly : ChangeFrequency

-- `priority` counts tenths.
pub record Route : Type 0 where
  pub path : Text
  pub priority : ℕ
  pub change_frequency : ChangeFrequency

unfoldable pub static_routes : List Route
static_routes =
    record { path = units "/"; priority = 10; change_frequency = weekly }
    ∷ record { path = units "/quickstart/"; priority = 9; change_frequency = monthly }
    ∷ record { path = units "/use-cases/"; priority = 8; change_frequency = monthly }
    ∷ record { path = units "/architecture/"; priority = 8; change_frequency = monthly }
    ∷ []

abbrev doc_route : DocLink → ℕ → Route
doc_route doc index = record {
  path = doc.href;
  priority = if index == 0 then 9 else 7;
  change_frequency = monthly;
}

unfoldable pub doc_routes : List Route
unfolding docs_flat
doc_routes = map_index doc_route docs_flat

unfoldable pub routes : List Route
unfolding static_routes doc_routes
routes = static_routes ++ doc_routes

abbrev pub frequency_text : ChangeFrequency → Text
frequency_text weekly = units "weekly"
frequency_text monthly = units "monthly"

-- `route.priority.toFixed(1)`, for less than ten.
abbrev pub priority_text : ℕ → Text
priority_text tenths = (b'0' + tenths / 10) ∷ b'.' ∷ (b'0' + tenths % 10) ∷ []

-- The lines of one `<url>`, and their text.
abbrev pub entry_lines : Text → Route → Text → List Text
entry_lines lastmod route url =
    units "  <url>"
    ∷ (units "    <loc>" ++ url ++ units "</loc>")
    ∷ (units "    <lastmod>" ++ lastmod ++ units "</lastmod>")
    ∷ (units "    <changefreq>" ++ frequency_text route.change_frequency ++ units "</changefreq>")
    ∷ (units "    <priority>" ++ priority_text route.priority ++ units "</priority>")
    ∷ units "  </url>"
    ∷ []

abbrev entry_at : Text → Route → Option Text → Option Text
entry_at lastmod route none = none
entry_at lastmod route (some url) = some (join_lines (entry_lines lastmod route url))

abbrev and_entries : Option Text → Option (List Text) → Option (List Text)
and_entries none later = none
and_entries (some entry) none = none
and_entries (some entry) (some entries) = some (entry ∷ entries)

-- `routes.map(…)`
unfoldable pub entries : Resolve → Text → Text → List Route → Option (List Text)
entries resolve base lastmod [] = some []
entries resolve base lastmod (route ∷ later) =
    and_entries (entry_at lastmod route (resolve route.path base))
      (entries resolve base lastmod later)

-- The lines around the entries.
abbrev pub sitemap_text : List Text → Text
sitemap_text texts = join_lines (
    units "<?xml version=\"1.0\" encoding=\"UTF-8\"?>"
    ∷ units "<urlset xmlns=\"http://www.sitemaps.org/schemas/sitemap/0.9\">"
    ∷ (texts ++ (units "</urlset>" ∷ [] ∷ [])))

abbrev sitemap_of : Option (List Text) → Option Text
sitemap_of none = none
sitemap_of (some texts) = some (sitemap_text texts)

-- `sitemap`, for any routes and address of the site.
unfoldable pub sitemap_for : Resolve → Text → Text → List Route → Option Text
unfolding entries join_lines
sitemap_for resolve base lastmod pages = sitemap_of (entries resolve base lastmod pages)

unfoldable pub sitemap : Resolve → Option Text → Text → Option Text
unfolding sitemap_for routes site_config
sitemap resolve env lastmod = sitemap_for resolve (site_config env).url lastmod routes

abbrev pub robots_text : Text → Text → Text
robots_text base url = join_lines (
    units "# https://www.robotstxt.org/robotstxt.html"
    ∷ units "User-agent: *"
    ∷ units "Allow: /"
    ∷ []
    ∷ (units "Sitemap: " ++ url)
    ∷ (units "Host: " ++ base)
    ∷ []
    ∷ [])

abbrev robots_of : Text → Option Text → Option Text
robots_of base none = none
robots_of base (some url) = some (robots_text base url)

unfoldable pub robots : Resolve → Option Text → Option Text
unfolding join_lines site_config
robots resolve env =
    robots_of (site_config env).url (resolve (units "/sitemap.xml") (site_config env).url)

-- `manifest`
unfoldable pub web_manifest : Option Text → Json
unfolding site_config
web_manifest env = json_object (
    members (
      (units "name", json_string (site_config env).title)
      ∷ (units "short_name", json_string (site_config env).name)
      ∷ (units "description", json_string (site_config env).short_description)
      ∷ (units "start_url", json_string (units "/"))
      ∷ (units "display", json_string (units "standalone"))
      ∷ (units "background_color", json_string (units "#04060d"))
      ∷ (units "theme_color", json_string (units "#04060d"))
      ∷ (
        units "icons",
        json_array (
            elements (
              json_object (
                members (
                  (units "src", json_string (units "/kubecell-logo.svg"))
                  ∷ (units "sizes", json_string (units "any"))
                  ∷ (units "type", json_string (units "image/svg+xml"))
                  ∷ (units "purpose", json_string (units "any"))
                  ∷ []))
              ∷ json_object (
                  members (
                    (units "src", json_string (units "/apple-icon.png"))
                    ∷ (units "sizes", json_string (units "180x180"))
                    ∷ (units "type", json_string (units "image/png"))
                    ∷ []))
              ∷ [])),
      )
      ∷ []))

-- `${JSON.stringify(manifest, null, 2)}\n`
unfoldable pub manifest_text : Option Text → Text
unfolding stringify_pretty web_manifest
manifest_text env = stringify_pretty (web_manifest env) ++ 10 ∷ []

-- `outputs`: the files to write, by their paths; `none` if an address is refused, whose exception
-- ends the script.
unfoldable pub outputs : Resolve → Option Text → Text → Option (List (Text × Text))
outputs resolve env lastmod = do
  listed ← sitemap resolve env lastmod
  rules ← robots resolve env
  some (
      (units "app/sitemap.xml", listed)
      ∷ (units "app/robots.txt", rules)
      ∷ (units "app/manifest.webmanifest", manifest_text env)
      ∷ [])
