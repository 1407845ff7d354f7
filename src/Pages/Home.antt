-- ===== src/Pages/Home.antt =====
-- website/app/page.tsx.
use kube_cell.Common.{Bool, [], ◌∷◌, ◌++◌, Option, none, some, Text, units, map}
use kube_cell.Dom.{computed, Node, text, el, fragment_of, txt, str, cls, ClassNames}
use kube_cell.Components.JsonLd.{json_ld}
use kube_cell.Json.{Json, json_string, json_object, members}
use kube_cell.Site.Config.{Resolve, site_config, with_addresses}
use kube_cell.Components.Section.{section, section_heading, center}
use kube_cell.Home.ArchitectureBeam.{architecture_beam}
use kube_cell.Home.CallToAction.{call_to_action}
use kube_cell.Home.CodeShowcase.{code_showcase}
use kube_cell.Home.Comparison.{comparison}
use kube_cell.Home.FaqPreview.{faq_preview}
use kube_cell.Home.FeatureBento.{feature_bento}
use kube_cell.Home.Hero.{hero}
use kube_cell.Home.Isolation.{isolation_grid}
use kube_cell.Home.StackMarquee.{stack_marquee}
use kube_cell.Home.UseCasePreview.{use_case_preview}
use kube_cell.Home.Workflow.{workflow}
use kube_cell.Site.Content.{pinned_stack}

unfoldable pub software_ld_of : Option Text → (Text → Text) → Json
unfolding site_config
software_ld_of env address = json_object (
    members (
      (units "@context", json_string (units "https://schema.org"))
      ∷ (units "@type", json_string (units "SoftwareSourceCode"))
      ∷ (units "name", json_string (units "KubeCell"))
      ∷ (units "description", json_string ((site_config env).description))
      ∷ (units "codeRepository", json_string ((site_config env).github))
      ∷ (units "programmingLanguage", json_string (units "Go"))
      ∷ (units "runtimePlatform", json_string (units "Kubernetes"))
      ∷ (units "applicationCategory", json_string (units "DeveloperApplication"))
      ∷ (units "license", json_string ((site_config env).github ++ units "/blob/main/LICENSE"))
      ∷ (
        units "author",
        json_object (
            members (
              (units "@type", json_string (units "Organization"))
              ∷ (units "name", json_string (units "KubeCell"))
              ∷ [])),
      )
      ∷ (units "url", json_string (address (units "/")))
      ∷ []))

unfoldable pub software_ld : Resolve → Option Text → Option Json
unfolding with_addresses software_ld_of
software_ld resolve env = with_addresses resolve env (units "/" ∷ []) (software_ld_of env)

-- `copied` is the state of the copy buttons, `address` gives the values of
-- `absoluteUrl`.
module _ (cn : ClassNames) (env : Option Text) where
  unfoldable pub home_page : Bool → (Text → Text) → Node
  unfolding hero stack_marquee feature_bento workflow isolation_grid comparison use_case_preview
      faq_preview call_to_action section section_heading architecture_beam json_ld pinned_stack
  home_page copied address = fragment_of (
      (json_ld (software_ld_of env address))
      ∷ (hero cn env copied)
      ∷ stack_marquee
      ∷ (feature_bento cn)
      ∷ (workflow cn)
      ∷ (section cn none (some (units "border-y border-white/5 bg-white/[0.015]")) (
          (section_heading cn (some (units "Architecture"))
            (txt "One management plane, many isolated clusters")
            (some (
              txt
                "You apply manifests to a single management cluster. KubeCell turns them into changes on the host, then hands back an endpoint and a kubeconfig."))
            center none)
          ∷ (el "div" (cls "mt-12" ∷ []) ((architecture_beam cn none none) ∷ []))
          ∷ (el "div" (cls "mt-8 text-center" ∷ []) (
              (el "Link"
                (str "href" "/architecture/"
                  ∷ cls
                      "inline-flex items-center gap-1.5 text-sm font-medium text-sky-400 transition-colors hover:text-sky-300"
                  ∷ [])
                ((txt "Read the technical principles")
                  ∷ (el "ArrowRight" (cls "h-3.5 w-3.5" ∷ []) [])
                  ∷ []))
              ∷ []))
          ∷ []))
      ∷ (isolation_grid cn)
      ∷ (comparison cn)
      ∷ (code_showcase cn copied)
      ∷ (section cn none (some (units "border-y border-white/5 bg-white/[0.015]")) (
          (section_heading cn (some (units "Tested versions"))
            (txt "Versions that are validated together")
            (some (
              txt
                "KubeCell pins and verifies the components each release supports, and reports any drift in resource status — so upgrades are a decision, not a surprise."))
            center none)
          ∷ (el "div" (cls "mt-12 overflow-hidden rounded-2xl border border-white/10" ∷ []) (
              (el "div" (cls "overflow-x-auto" ∷ []) (
                (el "table" (cls "w-full min-w-[640px] border-collapse text-left text-sm" ∷ []) (
                  (el "thead" [] (
                    (el "tr" (cls "bg-white/[0.03]" ∷ []) (
                      (el "th" (cls "px-5 py-3.5 font-medium text-muted-foreground" ∷ [])
                        ((txt "Component") ∷ []))
                      ∷ (el "th" (cls "px-5 py-3.5 font-medium text-muted-foreground" ∷ [])
                          ((txt "Version") ∷ []))
                      ∷ (el "th" (cls "px-5 py-3.5 font-medium text-muted-foreground" ∷ [])
                          ((txt "What it does for you") ∷ []))
                      ∷ []))
                    ∷ []))
                  ∷ (el "tbody" [] (
                      map
                        (λ row.
                          el "tr"
                            (computed "key" row.component ∷ cls "border-t border-white/5" ∷ [])
                            ((el "td" (cls "px-5 py-3.5 font-medium text-foreground" ∷ [])
                                ((text row.component) ∷ []))
                              ∷ (el "td" (cls "px-5 py-3.5 font-mono text-xs text-sky-300" ∷ [])
                                  ((text row.version) ∷ []))
                              ∷ (el "td" (cls "px-5 py-3.5 text-muted-foreground" ∷ [])
                                  ((text row.note) ∷ []))
                              ∷ []))
                        pinned_stack))
                  ∷ []))
                ∷ []))
              ∷ []))
          ∷ []))
      ∷ (use_case_preview cn)
      ∷ (faq_preview cn)
      ∷ (call_to_action cn env)
      ∷ [])
