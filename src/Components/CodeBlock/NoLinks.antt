-- ===== src/Components/CodeBlock/NoLinks.antt =====
-- A code block holds no links, no anchors, no headings and no scripts.
use kube_cell.Common.{ℕ, Bool, true, false, [], ◌∷◌, Option, none, some, Text, ◌≡◌, refl}
use kube_cell.Components.CodeBlock.{code_line, code_block, code_lines, line_tokens}
use kube_cell.Dom.{ClassNames}
use kube_cell.Dom.NoLinks.{
  links_of-map_from, anchors_of-map_from, scripts_of-map_from, texts_of_all-map_from,
}
use kube_cell.Dom.Reading.{links, anchors, scripts, texts_of}
use kube_cell.Highlight.Types.{Language}

pub code_line-links :
    (cn : ClassNames) (numbered : Bool) (language : Language) (line : Text) (index : ℕ)
    → links (code_line cn numbered language line index) ≡ []
unfolding links code_line
code_line-links cn true language line index =
    rw (links_of-map_from _ (λ token i. refl) 0 (line_tokens line language)) refl
code_line-links cn false language line index =
    rw (links_of-map_from _ (λ token i. refl) 0 (line_tokens line language)) refl

pub code_block-links :
    (cn : ClassNames) (copied : Bool) (code : Text) (language : Option Language)
    (filename class_name : Option Text) (numbered : Bool) (max_height : Option Text)
    → links (code_block cn copied code language filename class_name numbered max_height) ≡ []
unfolding links code_block
code_block-links cn true code language none class_name numbered max_height =
    rw (links_of-map_from _ (λ line i. code_line-links cn numbered _ line i) 0 (code_lines code))
      refl
code_block-links cn true code language (some []) class_name numbered max_height =
    rw (links_of-map_from _ (λ line i. code_line-links cn numbered _ line i) 0 (code_lines code))
      refl
code_block-links cn true code language (some (c ∷ filename)) class_name numbered max_height =
    rw (links_of-map_from _ (λ line i. code_line-links cn numbered _ line i) 0 (code_lines code))
      refl
code_block-links cn false code language none class_name numbered max_height =
    rw (links_of-map_from _ (λ line i. code_line-links cn numbered _ line i) 0 (code_lines code))
      refl
code_block-links cn false code language (some []) class_name numbered max_height =
    rw (links_of-map_from _ (λ line i. code_line-links cn numbered _ line i) 0 (code_lines code))
      refl
code_block-links cn false code language (some (c ∷ filename)) class_name numbered max_height =
    rw (links_of-map_from _ (λ line i. code_line-links cn numbered _ line i) 0 (code_lines code))
      refl

pub code_line-anchors :
    (cn : ClassNames) (numbered : Bool) (language : Language) (line : Text) (index : ℕ)
    → anchors (code_line cn numbered language line index) ≡ []
unfolding anchors code_line
code_line-anchors cn true language line index =
    rw (anchors_of-map_from _ (λ token i. refl) 0 (line_tokens line language)) refl
code_line-anchors cn false language line index =
    rw (anchors_of-map_from _ (λ token i. refl) 0 (line_tokens line language)) refl

pub code_block-anchors :
    (cn : ClassNames) (copied : Bool) (code : Text) (language : Option Language)
    (filename class_name : Option Text) (numbered : Bool) (max_height : Option Text)
    → anchors (code_block cn copied code language filename class_name numbered max_height) ≡ []
unfolding anchors code_block
code_block-anchors cn true code language none class_name numbered max_height =
    rw
      (anchors_of-map_from _ (λ line i. code_line-anchors cn numbered _ line i) 0 (code_lines code))
      refl
code_block-anchors cn true code language (some []) class_name numbered max_height =
    rw
      (anchors_of-map_from _ (λ line i. code_line-anchors cn numbered _ line i) 0 (code_lines code))
      refl
code_block-anchors cn true code language (some (c ∷ filename)) class_name numbered max_height =
    rw
      (anchors_of-map_from _ (λ line i. code_line-anchors cn numbered _ line i) 0 (code_lines code))
      refl
code_block-anchors cn false code language none class_name numbered max_height =
    rw
      (anchors_of-map_from _ (λ line i. code_line-anchors cn numbered _ line i) 0 (code_lines code))
      refl
code_block-anchors cn false code language (some []) class_name numbered max_height =
    rw
      (anchors_of-map_from _ (λ line i. code_line-anchors cn numbered _ line i) 0 (code_lines code))
      refl
code_block-anchors cn false code language (some (c ∷ filename)) class_name numbered max_height =
    rw
      (anchors_of-map_from _ (λ line i. code_line-anchors cn numbered _ line i) 0 (code_lines code))
      refl

pub code_line-headings :
    (cn : ClassNames) (numbered : Bool) (language : Language) (line : Text) (index : ℕ)
    → texts_of "h2" (code_line cn numbered language line index) ≡ []
unfolding texts_of code_line
code_line-headings cn true language line index =
    rw (texts_of_all-map_from "h2" _ (λ token i. refl) 0 (line_tokens line language)) refl
code_line-headings cn false language line index =
    rw (texts_of_all-map_from "h2" _ (λ token i. refl) 0 (line_tokens line language)) refl

pub code_block-headings :
    (cn : ClassNames) (copied : Bool) (code : Text) (language : Option Language)
    (filename class_name : Option Text) (numbered : Bool) (max_height : Option Text)
    → texts_of "h2" (code_block cn copied code language filename class_name numbered max_height)
      ≡ []
unfolding texts_of code_block
code_block-headings cn true code language none class_name numbered max_height =
    rw
      (texts_of_all-map_from "h2" _ (λ line i. code_line-headings cn numbered _ line i) 0
        (code_lines code))
      refl
code_block-headings cn true code language (some []) class_name numbered max_height =
    rw
      (texts_of_all-map_from "h2" _ (λ line i. code_line-headings cn numbered _ line i) 0
        (code_lines code))
      refl
code_block-headings cn true code language (some (c ∷ filename)) class_name numbered max_height =
    rw
      (texts_of_all-map_from "h2" _ (λ line i. code_line-headings cn numbered _ line i) 0
        (code_lines code))
      refl
code_block-headings cn false code language none class_name numbered max_height =
    rw
      (texts_of_all-map_from "h2" _ (λ line i. code_line-headings cn numbered _ line i) 0
        (code_lines code))
      refl
code_block-headings cn false code language (some []) class_name numbered max_height =
    rw
      (texts_of_all-map_from "h2" _ (λ line i. code_line-headings cn numbered _ line i) 0
        (code_lines code))
      refl
code_block-headings cn false code language (some (c ∷ filename)) class_name numbered max_height =
    rw
      (texts_of_all-map_from "h2" _ (λ line i. code_line-headings cn numbered _ line i) 0
        (code_lines code))
      refl

pub code_line-scripts :
    (cn : ClassNames) (numbered : Bool) (language : Language) (line : Text) (index : ℕ)
    → scripts (code_line cn numbered language line index) ≡ []
unfolding scripts code_line
code_line-scripts cn true language line index =
    rw (scripts_of-map_from _ (λ token i. refl) 0 (line_tokens line language)) refl
code_line-scripts cn false language line index =
    rw (scripts_of-map_from _ (λ token i. refl) 0 (line_tokens line language)) refl

pub code_block-scripts :
    (cn : ClassNames) (copied : Bool) (code : Text) (language : Option Language)
    (filename class_name : Option Text) (numbered : Bool) (max_height : Option Text)
    → scripts (code_block cn copied code language filename class_name numbered max_height) ≡ []
unfolding scripts code_block
code_block-scripts cn true code language none class_name numbered max_height =
    rw
      (scripts_of-map_from _ (λ line i. code_line-scripts cn numbered _ line i) 0 (code_lines code))
      refl
code_block-scripts cn true code language (some []) class_name numbered max_height =
    rw
      (scripts_of-map_from _ (λ line i. code_line-scripts cn numbered _ line i) 0 (code_lines code))
      refl
code_block-scripts cn true code language (some (c ∷ filename)) class_name numbered max_height =
    rw
      (scripts_of-map_from _ (λ line i. code_line-scripts cn numbered _ line i) 0 (code_lines code))
      refl
code_block-scripts cn false code language none class_name numbered max_height =
    rw
      (scripts_of-map_from _ (λ line i. code_line-scripts cn numbered _ line i) 0 (code_lines code))
      refl
code_block-scripts cn false code language (some []) class_name numbered max_height =
    rw
      (scripts_of-map_from _ (λ line i. code_line-scripts cn numbered _ line i) 0 (code_lines code))
      refl
code_block-scripts cn false code language (some (c ∷ filename)) class_name numbered max_height =
    rw
      (scripts_of-map_from _ (λ line i. code_line-scripts cn numbered _ line i) 0 (code_lines code))
      refl
