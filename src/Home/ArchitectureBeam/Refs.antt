-- ===== src/Home/ArchitectureBeam/Refs.antt =====
-- The references between which the beams of the architecture are drawn.
use kube_cell.Common.{
  Bool, true, not, ◌&&◌, List, [], ◌∷◌, ◌++◌, Option, none, some, String, Text, all, any, str_eq,
  if◌then◌else◌, ◌≡◌, refl,
}
use kube_cell.Dom.{
  Prop, ref, Node, text, digits, element, fragment, nothing, Nodes, end, cons, ClassNames,
}
use kube_cell.Home.ArchitectureBeam.{BeamVariant, simple, technical, architecture_beam}

-- The names of the references that properties pass for which the test holds.
abbrev refs_in : (String → Bool) → List Prop → List String
refs_in test [] = []
refs_in test (ref name target ∷ ps) =
    let later = refs_in test ps in if test name then target ∷ later else later
refs_in test (_ ∷ ps) = refs_in test ps

unfoldable mutual
  pub refs : (String → Bool) → Node → List String
  refs test (element name ps ns) = refs_in test ps ++ refs_of test ns
  refs test (fragment ns) = refs_of test ns
  refs test (text s) = []
  refs test (digits n) = []
  refs test nothing = []

  refs_of : (String → Bool) → Nodes → List String
  refs_of test end = []
  refs_of test (cons n ns) = refs test n ++ refs_of test ns

-- `ref={…}` attaches a reference to its element; every other property hands one on.
abbrev attaches : String → Bool
attaches name = str_eq name "ref"

abbrev hands_on : String → Bool
hands_on name = not (str_eq name "ref")

unfoldable pub attached : Node → List String
unfolding refs
attached node = refs attaches node

unfoldable pub handed_on : Node → List String
unfolding refs
handed_on node = refs hands_on node

unfoldable pub each_once : List String → Bool
each_once [] = true
each_once (name ∷ names) = not (any (str_eq name) names) && each_once names

-- In both variants every reference that a beam is handed is attached to an element of the tree, and
-- none is attached to two.
pub architecture_beam-refs :
    (cn : ClassNames) (class_name : Option Text) (variant : Option BeamVariant)
    → (all
          (λ (name : String).
            any (str_eq name) (attached (architecture_beam cn class_name variant)))
          (handed_on (architecture_beam cn class_name variant))
        ≡ true)
      × (each_once (attached (architecture_beam cn class_name variant)) ≡ true)
unfolding attached handed_on each_once architecture_beam
architecture_beam-refs cn class_name none = (refl, refl)
architecture_beam-refs cn class_name (some simple) = (refl, refl)
architecture_beam-refs cn class_name (some technical) = (refl, refl)
