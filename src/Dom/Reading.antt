-- ===== src/Dom/Reading.antt =====
-- What a reader of a rendered tree sees: its texts, where its links lead, and the anchors to which
-- links may lead.
use kube_cell.Common.{
  Bool, String, some, ◌||◌, List, [], ◌∷◌, ◌++◌, Text, if◌then◌else◌, str_eq, decimal, any,
  starts_with, units,
}
use kube_cell.Dom.{
  Prop, computed, given, handler_with, inner_html, Node, text, digits, element, fragment, nothing,
  Nodes, end, cons,
}

-- The values of a property.
abbrev values_of : String → List Prop → List Text
values_of property [] = []
values_of property (computed name value ∷ ps) =
    let later = values_of property ps in if str_eq name property then value ∷ later else later
values_of property (given name (some value) ∷ ps) =
    let later = values_of property ps in if str_eq name property then value ∷ later else later
values_of property (_ ∷ ps) = values_of property ps

-- What renders an HTML link: `a`, `Link` of next/link, and `BentoCard` for its `href`.
abbrev is_link : String → Bool
is_link name = str_eq name "a" || str_eq name "Link" || str_eq name "BentoCard"

-- The targets of the links of a tree.
unfoldable mutual
  pub links : Node → List Text
  links (text s) = []
  links (element name ps ns) = (if is_link name then values_of "href" ps else []) ++ links_of ns
  links (fragment ns) = links_of ns
  links (digits n) = []
  links nothing = []

  pub links_of : Nodes → List Text
  links_of end = []
  links_of (cons n ns) = links n ++ links_of ns

-- The anchors of a tree: the values of the property `id`.
unfoldable mutual
  pub anchors : Node → List Text
  anchors (text s) = []
  anchors (element name ps ns) = values_of "id" ps ++ anchors_of ns
  anchors (fragment ns) = anchors_of ns
  anchors (digits n) = []
  anchors nothing = []

  pub anchors_of : Nodes → List Text
  anchors_of end = []
  anchors_of (cons n ns) = anchors n ++ anchors_of ns

-- The texts that stand unescaped in the elements `script`.
abbrev html_in : List Prop → List Text
html_in [] = []
html_in (inner_html s ∷ ps) = s ∷ html_in ps
html_in (_ ∷ ps) = html_in ps

unfoldable mutual
  pub scripts : Node → List Text
  scripts (text s) = []
  scripts (element name ps ns) = (if str_eq name "script" then html_in ps else []) ++ scripts_of ns
  scripts (fragment ns) = scripts_of ns
  scripts (digits n) = []
  scripts nothing = []

  pub scripts_of : Nodes → List Text
  scripts_of end = []
  scripts_of (cons n ns) = scripts n ++ scripts_of ns

-- The texts that the handlers `copy` of the buttons of a tree close over.
abbrev copied_in : List Prop → List Text
copied_in [] = []
copied_in (handler_with event name s ∷ ps) =
    let later = copied_in ps in if str_eq name "copy" then s ∷ later else later
copied_in (_ ∷ ps) = copied_in ps

unfoldable mutual
  pub copy_values : Node → List Text
  copy_values (text s) = []
  copy_values (element name ps ns) =
      (if str_eq name "button" then copied_in ps else []) ++ copy_values_of ns
  copy_values (fragment ns) = copy_values_of ns
  copy_values (digits n) = []
  copy_values nothing = []

  pub copy_values_of : Nodes → List Text
  copy_values_of end = []
  copy_values_of (cons n ns) = copy_values n ++ copy_values_of ns

-- The text of a tree.
unfoldable mutual
  pub shown : Node → Text
  shown (text s) = s
  shown (element name ps ns) = shown_of ns
  shown (fragment ns) = shown_of ns
  shown (digits n) = decimal n
  shown nothing = []

  pub shown_of : Nodes → Text
  shown_of end = []
  shown_of (cons n ns) = shown n ++ shown_of ns

-- The texts of the elements of a name, from first to last.
unfoldable mutual
  unfolding shown

  pub texts_of : String → Node → List Text
  texts_of tag (text s) = []
  texts_of tag (element name ps ns) =
      (if str_eq name tag then shown_of ns ∷ [] else []) ++ texts_of_all tag ns
  texts_of tag (fragment ns) = texts_of_all tag ns
  texts_of tag (digits n) = []
  texts_of tag nothing = []

  pub texts_of_all : String → Nodes → List Text
  texts_of_all tag end = []
  texts_of_all tag (cons n ns) = texts_of tag n ++ texts_of_all tag ns

-- Whether an element keeps the white space of its text.
abbrev keeps_space : List Prop → Bool
keeps_space ps = any (λ name. starts_with name (units "whitespace-pre")) (values_of "className" ps)

-- The texts of the elements that keep their white space.
unfoldable mutual
  unfolding shown

  pub kept : Node → List Text
  kept (text s) = []
  kept (element name ps ns) = if keeps_space ps then shown_of ns ∷ [] else kept_of ns
  kept (fragment ns) = kept_of ns
  kept (digits n) = []
  kept nothing = []

  pub kept_of : Nodes → List Text
  kept_of end = []
  kept_of (cons n ns) = kept n ++ kept_of ns

-- The lines that the elements `code` of a tree show, without their numbers.
unfoldable mutual
  unfolding kept

  pub shown_lines : Node → List Text
  shown_lines (text s) = []
  shown_lines (element name ps ns) = if str_eq name "code" then kept_of ns else shown_lines_of ns
  shown_lines (fragment ns) = shown_lines_of ns
  shown_lines (digits n) = []
  shown_lines nothing = []

  pub shown_lines_of : Nodes → List Text
  shown_lines_of end = []
  shown_lines_of (cons n ns) = shown_lines n ++ shown_lines_of ns
