-- ===== src/Home/FaqPreview.antt =====
-- website/components/home/faq-preview.tsx.
use kube_cell.Common.{true, [], ◌∷◌, none, some, units, map, take}
use kube_cell.Dom.{computed, flag, Node, text, el, txt, str, cls, ClassNames}
use kube_cell.Components.Section.{section_heading, left}
use kube_cell.Site.Content.{faq_items}

module _ (cn : ClassNames) where
  unfoldable pub faq_preview : Node
  unfolding section_heading faq_items
  faq_preview = el "section" (cls "relative py-20 sm:py-24" ∷ []) (
      (el "div" (cls "container-page" ∷ []) (
        (el "div" (cls "grid gap-10 lg:grid-cols-[0.9fr_1.1fr] lg:gap-16" ∷ []) (
          (section_heading cn (some (units "FAQ")) (txt "Questions engineers ask first")
            (some (txt "Design trade-offs worth knowing before you install anything.")) left none)
          ∷ (el "div" [] (
              (el "Accordion" (str "type" "single" ∷ flag "collapsible" true ∷ cls "w-full" ∷ []) (
                map
                  (λ item.
                    el "AccordionItem"
                      (computed "key" item.question ∷ computed "value" item.question ∷ [])
                      ((el "AccordionTrigger"
                          (cls "text-left text-[15px] font-medium hover:text-sky-300" ∷ [])
                          ((text item.question) ∷ []))
                        ∷ (el "AccordionContent"
                            (cls "text-sm leading-6 text-muted-foreground" ∷ [])
                            ((text item.answer) ∷ []))
                        ∷ []))
                  (take 5 faq_items)))
              ∷ (el "p" (cls "mt-6 text-sm text-muted-foreground" ∷ []) (
                  (txt "More questions answered in the")
                  ∷ (txt " ")
                  ∷ (el "Link"
                      (str "href" "/docs/faq/"
                        ∷ cls "font-medium text-sky-400 hover:text-sky-300"
                        ∷ [])
                      ((txt "full FAQ") ∷ []))
                  ∷ (txt ".")
                  ∷ []))
              ∷ []))
          ∷ []))
        ∷ []))
      ∷ [])
