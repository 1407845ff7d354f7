-- ===== src/Pages/DocsFaq.antt =====
-- website/app/docs/faq/page.tsx.
pub mod Shown
use kube_cell.Common.{true, List, [], ◌∷◌, ◌++◌, Option, none, some, Text, units, decimal}
use kube_cell.Dom.{
  computed, flag, Node, text, el, fragment_of, txt, str, cls, map_index, ClassNames,
}
use kube_cell.Components.Callout.{prose}
use kube_cell.Site.Content.{FaqItem, faq_items}
use kube_cell.Components.JsonLd.{json_ld}
use kube_cell.Json.{
  Json, json_string, json_array, json_object, Elements, no_element, add_element, no_member,
  add_member,
}
use kube_cell.Site.Config.{Resolve, absolute_url}
use kube_cell.Site.Metadata.{Metadata, build_metadata}

unfoldable pub metadata : Metadata
unfolding build_metadata
metadata = build_metadata (record {
  title = units "FAQ";
  description =
      units
        "Frequently asked questions about KubeCell: what a VirtualCluster is, accelerator support, isolation guarantees, logical nodes, deletion semantics, and production readiness.";
  path = units "/docs/faq/";
  keywords = some (
      units "KubeCell FAQ" ∷ units "KubeCell limitations" ∷ units "virtual cluster questions" ∷ []);
  type = none;
})

-- One member of `mainEntity`.
abbrev question_ld : FaqItem → Json
question_ld item = json_object (
    add_member (units "@type") (json_string (units "Question")) (
      add_member (units "name") (json_string item.question) (
        add_member (units "acceptedAnswer")
          (json_object (
            add_member (units "@type") (json_string (units "Answer"))
              (add_member (units "text") (json_string item.answer) no_member)))
          no_member)))

abbrev question_elements : List FaqItem → Elements
question_elements [] = no_element
question_elements (item ∷ items) = add_element (question_ld item) (question_elements items)

-- `faqLd`, for the page's address.
unfoldable pub faq_ld_at : Text → Json
unfolding faq_items
faq_ld_at url = json_object (
    add_member (units "@context") (json_string (units "https://schema.org")) (
      add_member (units "@type") (json_string (units "FAQPage")) (
        add_member (units "mainEntity") (json_array (question_elements faq_items))
          (add_member (units "url") (json_string url) no_member))))

abbrev faq_ld_of : Option Text → Option Json
faq_ld_of none = none
faq_ld_of (some url) = some (faq_ld_at url)

-- `none` is the exception of `new URL`.
unfoldable pub faq_ld : Resolve → Option Text → Option Json
unfolding absolute_url
faq_ld resolve env = faq_ld_of (absolute_url resolve env (units "/docs/faq/"))

-- `address` gives the values of `absoluteUrl`.
module _ (cn : ClassNames) where
  unfoldable pub faq_page_of : (Text → Text) → Node
  unfolding prose faq_items json_ld
  faq_page_of address = fragment_of (
      (json_ld (faq_ld_at (address (units "/docs/faq/"))))
      ∷ (prose cn
          ((el "p" (cls "font-mono text-xs uppercase tracking-[0.2em] text-sky-400" ∷ [])
              ((txt "Guides") ∷ []))
            ∷ (el "h1"
                (cls "mt-3 text-3xl font-semibold tracking-tight text-foreground sm:text-4xl" ∷ [])
                ((txt "Frequently asked questions") ∷ []))
            ∷ (el "p" (cls "mt-5 text-base leading-7 text-muted-foreground" ∷ [])
                ((txt "Short answers to the questions that come up in every design review.") ∷ []))
            ∷ (el "div" (cls "not-prose mt-8" ∷ []) (
                (el "Accordion" (str "type" "single" ∷ flag "collapsible" true ∷ cls "w-full" ∷ [])
                  (map_index
                    (λ item index.
                      el "AccordionItem"
                        (computed "key" item.question
                          ∷ computed "value" (units "item-" ++ decimal index)
                          ∷ [])
                        ((el "AccordionTrigger"
                            (cls "text-left text-[15px] font-medium hover:text-sky-300" ∷ [])
                            ((text item.question) ∷ []))
                          ∷ (el "AccordionContent"
                              (cls "text-sm leading-6 text-muted-foreground" ∷ [])
                              ((text item.answer) ∷ []))
                          ∷ []))
                    faq_items))
                ∷ []))
            ∷ (el "p" (cls "mt-10" ∷ []) (
                (txt "Still stuck? The ")
                ∷ (el "Link" (str "href" "/docs/troubleshooting/" ∷ [])
                    ((txt "troubleshooting guide") ∷ []))
                ∷ (txt " covers symptom-first diagnosis, and the")
                ∷ (txt " ")
                ∷ (el "a"
                    (str "href" "https://github.com/taosher/KubeCell/blob/main/technical-design.md"
                      ∷ [])
                    ((txt "technical design") ∷ []))
                ∷ (txt " ")
                ∷ (txt "is the authoritative answer for anything not listed here.")
                ∷ []))
            ∷ [])
          none)
      ∷ [])
