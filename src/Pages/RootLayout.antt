-- ===== src/Pages/RootLayout.antt =====
-- website/app/layout.tsx: the frame of every page. The address of the path "" stands for the URL of the
-- site itself, `metadataBase`.
use kube_cell.Common.{ℕ, Bool, true, false, List, [], ◌∷◌, Option, Text, units, map}
use kube_cell.Dom.{Node, el, txt, str, cls, ClassNames}
use kube_cell.Components.JsonLd.{json_ld}
use kube_cell.Json.{
  Json, json_string, json_number, json_negsuc, json_bool, json_array, json_object, elements,
  members,
}
use kube_cell.Site.Config.{Resolve, site_config, with_addresses}
use kube_cell.Layout.Footer.{site_footer}
use kube_cell.Layout.Header.{site_header}

unfoldable pub root_metadata_of : Option Text → (Text → Text) → Json
unfolding site_config
root_metadata_of env address = json_object (
    members (
      (units "metadataBase", json_string (address []))
      ∷ (
        units "title",
        json_object (
            members (
              (units "default", json_string ((site_config env).title))
              ∷ (units "template", json_string (units "%s | KubeCell"))
              ∷ [])),
      )
      ∷ (units "description", json_string ((site_config env).description))
      ∷ (units "keywords", json_array (elements (map json_string (site_config env).keywords)))
      ∷ (units "applicationName", json_string ((site_config env).name))
      ∷ (
        units "authors",
        json_array (
            elements (
              json_object (
                members (
                  (units "name", json_string (units "KubeCell contributors"))
                  ∷ (units "url", json_string ((site_config env).github))
                  ∷ []))
              ∷ [])),
      )
      ∷ (units "creator", json_string (units "KubeCell"))
      ∷ (units "publisher", json_string (units "KubeCell"))
      ∷ (units "category", json_string (units "technology"))
      ∷ (
        units "alternates",
        json_object (members ((units "canonical", json_string (units "/")) ∷ [])),
      )
      ∷ (
        units "openGraph",
        json_object (
            members (
              (units "type", json_string (units "website"))
              ∷ (units "locale", json_string (units "en_US"))
              ∷ (units "url", json_string (address (units "/")))
              ∷ (units "siteName", json_string ((site_config env).name))
              ∷ (units "title", json_string ((site_config env).title))
              ∷ (units "description", json_string ((site_config env).description))
              ∷ (
                units "images",
                json_array (
                    elements (
                      json_object (
                        members (
                          (units "url", json_string (units "/og.png"))
                          ∷ (units "width", json_number 1200)
                          ∷ (units "height", json_number 630)
                          ∷ (
                            units "alt",
                            json_string (
                                units
                                  "KubeCell — isolated Kubernetes child clusters on shared bare metal"),
                          )
                          ∷ []))
                      ∷ [])),
              )
              ∷ [])),
      )
      ∷ (
        units "twitter",
        json_object (
            members (
              (units "card", json_string (units "summary_large_image"))
              ∷ (units "title", json_string ((site_config env).title))
              ∷ (units "description", json_string ((site_config env).short_description))
              ∷ (units "images", json_array (elements (json_string (units "/og.png") ∷ [])))
              ∷ [])),
      )
      ∷ (
        units "robots",
        json_object (
            members (
              (units "index", json_bool true)
              ∷ (units "follow", json_bool true)
              ∷ (
                units "googleBot",
                json_object (
                    members (
                      (units "index", json_bool true)
                      ∷ (units "follow", json_bool true)
                      ∷ (units "max-image-preview", json_string (units "large"))
                      ∷ (units "max-snippet", json_negsuc 0)
                      ∷ (units "max-video-preview", json_negsuc 0)
                      ∷ [])),
              )
              ∷ [])),
      )
      ∷ (
        units "icons",
        json_object (
            members (
              (
                units "icon",
                json_array (
                    elements (
                      json_object (
                        members (
                          (units "url", json_string (units "/kubecell-logo.svg"))
                          ∷ (units "type", json_string (units "image/svg+xml"))
                          ∷ []))
                      ∷ [])),
              )
              ∷ (
                units "shortcut",
                json_array (elements (json_string (units "/kubecell-logo.svg") ∷ [])),
              )
              ∷ (
                units "apple",
                json_array (
                    elements (
                      json_object (
                        members (
                          (units "url", json_string (units "/apple-icon.png"))
                          ∷ (units "sizes", json_string (units "180x180"))
                          ∷ []))
                      ∷ [])),
              )
              ∷ [])),
      )
      ∷ (units "formatDetection", json_object (members ((units "telephone", json_bool false) ∷ [])))
      ∷ []))

unfoldable pub root_metadata : Resolve → Option Text → Option Json
unfolding with_addresses root_metadata_of
root_metadata resolve env = with_addresses resolve env ([] ∷ units "/" ∷ []) (root_metadata_of env)

unfoldable pub viewport : Json
viewport = json_object (
    members (
      (units "width", json_string (units "device-width"))
      ∷ (units "initialScale", json_number 1)
      ∷ (units "colorScheme", json_string (units "dark"))
      ∷ (units "themeColor", json_string (units "#04060d"))
      ∷ []))

unfoldable pub organization_ld_of : Option Text → (Text → Text) → Json
unfolding site_config
organization_ld_of env address = json_object (
    members (
      (units "@context", json_string (units "https://schema.org"))
      ∷ (units "@type", json_string (units "Organization"))
      ∷ (units "name", json_string (units "KubeCell"))
      ∷ (units "url", json_string ((site_config env).url))
      ∷ (units "logo", json_string (address (units "/kubecell-logo.svg")))
      ∷ (units "sameAs", json_array (elements (json_string ((site_config env).github) ∷ [])))
      ∷ (units "description", json_string ((site_config env).description))
      ∷ []))

unfoldable pub website_ld : Option Text → Json
unfolding site_config
website_ld env = json_object (
    members (
      (units "@context", json_string (units "https://schema.org"))
      ∷ (units "@type", json_string (units "WebSite"))
      ∷ (units "name", json_string (units "KubeCell"))
      ∷ (units "url", json_string ((site_config env).url))
      ∷ (units "description", json_string ((site_config env).description))
      ∷ (
        units "publisher",
        json_object (
            members (
              (units "@type", json_string (units "Organization"))
              ∷ (units "name", json_string (units "KubeCell"))
              ∷ [])),
      )
      ∷ []))

-- `[organizationLd, websiteLd]`
unfoldable pub site_ld : Resolve → Option Text → Option Json
unfolding with_addresses organization_ld_of website_ld
site_ld resolve env =
    with_addresses resolve env (units "/kubecell-logo.svg" ∷ [])
      (λ address. json_array (elements (organization_ld_of env address ∷ website_ld env ∷ [])))

-- `address` gives the values of `absoluteUrl`.
module _ (cn : ClassNames) (env : Option Text) where
  unfoldable pub root_layout : Text → Bool → ℕ → (Text → Text) → List Node → Node
  unfolding json_ld
  root_layout pathname is_open year address children =
      el "html" (str "lang" "en" ∷ cls "dark" ∷ []) (
        (el "body" (cls "min-h-screen antialiased" ∷ []) (
          (json_ld (json_array (elements (organization_ld_of env address ∷ website_ld env ∷ []))))
          ∷ (el "ScrollProgress"
              (cls "h-0.5 bg-gradient-to-r from-sky-400 via-violet-400 to-sky-400" ∷ []) [])
          ∷ (el "a"
              (str "href" "#main"
                ∷ cls
                    "sr-only focus:not-sr-only focus:absolute focus:left-4 focus:top-4 focus:z-[100] focus:rounded-md focus:bg-primary focus:px-4 focus:py-2 focus:text-primary-foreground"
                ∷ [])
              ((txt "Skip to content") ∷ []))
          ∷ (site_header cn env pathname is_open)
          ∷ (el "main" (str "id" "main" ∷ []) children)
          ∷ (site_footer cn env year)
          ∷ []))
        ∷ [])
