-- ===== src/Dom.antt =====
-- React elements: what a component returns. A component of the site is a function, and a use of it
-- is a call; a component of a library (next/link, lucide-react, components/ui, components/magicui)
-- stays an element under its name, with its properties and children; an element that such a
-- component is given as a property, `background`, stands among its children as the element
-- `background`.
pub mod NoLinks
pub mod Reading
use kube_cell.Common.{
  ℕ, suc, Bool, true, false, List, [], ◌∷◌, Option, none, some, Text, String, units,
}
use kube_cell.Json.{Json}

pub data Prop : Type 0 where
  -- a string, given as it stands or computed
  computed : String → Text → Prop
  -- an optional string: undefined leaves the property out
  given : String → Option Text → Prop
  -- a decimal number: its digits, and how many of them stand behind the point; `minus` negates it
  number minus : String → ℕ → ℕ → Prop
  flag : String → Bool → Prop
  -- an event handler, and a reference, by their names in the source
  handler ref : String → String → Prop
  -- an event handler that closes over a text
  handler_with : String → String → Text → Prop
  list : String → List Text → Prop
  style : List (String × Text) → Prop
  -- a component, by its name
  component : String → String → Prop
  -- an object or a list of objects
  datum : String → Json → Prop
  -- `dangerouslySetInnerHTML`
  inner_html : Text → Prop

mutual
  pub data Node : Type 0 where
    text : Text → Node
    -- a number among the children
    digits : ℕ → Node
    element : String → List Prop → Nodes → Node
    fragment : Nodes → Node
    -- null or undefined
    nothing : Node

  pub data Nodes : Type 0 where
    end : Nodes
    cons : Node → Nodes → Nodes

abbrev pub to_nodes : List Node → Nodes
to_nodes [] = end
to_nodes (n ∷ ns) = cons n (to_nodes ns)

-- `<name …props>…children</name>`
abbrev pub el : String → List Prop → List Node → Node
el name props children = element name props (to_nodes children)

-- `<>…children</>`
abbrev pub fragment_of : List Node → Node
fragment_of children = fragment (to_nodes children)

-- A text in the source.
abbrev pub txt : String → Node
txt s = text (units s)

-- A property whose value is a string literal; `className` of a literal.
abbrev pub str : String → String → Prop
str name value = computed name (units value)

abbrev pub cls : String → Prop
cls value = str "className" value

-- `{value ? render(value) : null}` and `{value}` of an optional property.
abbrev pub when_given {ℓ} : {A : Type ℓ} → Option A → (A → Node) → Node
when_given none render = nothing
when_given (some a) render = render a

-- An optional text in a condition: the empty text counts as none.
abbrev pub truthy : Option Text → Option Text
truthy none = none
truthy (some []) = none
truthy (some (c ∷ s)) = some (c ∷ s)

-- `{value ? render(value) : other}` of an optional value.
abbrev pub given_or {ℓ} : {A : Type ℓ} → Option A → (A → Node) → Node → Node
given_or none render other = other
given_or (some a) render other = render a

-- `{children ? shown : null}`: no children are undefined.
abbrev pub when_any : List Node → Node → Node
when_any [] shown = nothing
when_any (n ∷ ns) shown = shown

-- `items.map((item, index) => …)`
abbrev pub map_from {ℓ κ} : {A : Type ℓ} {B : Type κ} → ℕ → (A → ℕ → B) → List A → List B
map_from i f [] = []
map_from i f (a ∷ as') = f a i ∷ map_from (suc i) f as'

abbrev pub map_index {ℓ κ} : {A : Type ℓ} {B : Type κ} → (A → ℕ → B) → List A → List B
map_index f items = map_from 0 f items

-- The class list of `cn(…inputs)`, of lib/utils.ts, which calls clsx and tailwind-merge: `none` is
-- an input that is false or undefined.
abbrev pub ClassNames : Type 0
ClassNames = List (Option Text) → Text
