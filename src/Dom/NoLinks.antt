-- ===== src/Dom/NoLinks.antt =====
-- Lists of nodes without links, anchors, scripts, copied texts or elements of a name.
use kube_cell.Common.{ℕ, suc, String, List, [], ◌∷◌, ◌≡◌, refl}
use kube_cell.Dom.{Node, to_nodes, map_from}
use kube_cell.Dom.Reading.{
  links, links_of, anchors, anchors_of, scripts, scripts_of, copy_values, copy_values_of, texts_of,
  texts_of_all,
}

pub links_of-map_from {ℓ} :
    {A : Type ℓ} (f : A → ℕ → Node)
    → ((a : A) (i : ℕ) → links (f a i) ≡ [])
    → (i : ℕ) (items : List A) → links_of (to_nodes (map_from i f items)) ≡ []
unfolding links
links_of-map_from f h i [] = refl
links_of-map_from f h i (a ∷ items) = rw (h a i, links_of-map_from f h (suc i) items) refl

pub anchors_of-map_from {ℓ} :
    {A : Type ℓ} (f : A → ℕ → Node)
    → ((a : A) (i : ℕ) → anchors (f a i) ≡ [])
    → (i : ℕ) (items : List A) → anchors_of (to_nodes (map_from i f items)) ≡ []
unfolding anchors
anchors_of-map_from f h i [] = refl
anchors_of-map_from f h i (a ∷ items) = rw (h a i, anchors_of-map_from f h (suc i) items) refl

pub scripts_of-map_from {ℓ} :
    {A : Type ℓ} (f : A → ℕ → Node)
    → ((a : A) (i : ℕ) → scripts (f a i) ≡ [])
    → (i : ℕ) (items : List A) → scripts_of (to_nodes (map_from i f items)) ≡ []
unfolding scripts
scripts_of-map_from f h i [] = refl
scripts_of-map_from f h i (a ∷ items) = rw (h a i, scripts_of-map_from f h (suc i) items) refl

pub copy_values_of-map_from {ℓ} :
    {A : Type ℓ} (f : A → ℕ → Node)
    → ((a : A) (i : ℕ) → copy_values (f a i) ≡ [])
    → (i : ℕ) (items : List A) → copy_values_of (to_nodes (map_from i f items)) ≡ []
unfolding copy_values
copy_values_of-map_from f h i [] = refl
copy_values_of-map_from f h i (a ∷ items) =
    rw (h a i, copy_values_of-map_from f h (suc i) items) refl

pub texts_of_all-map_from {ℓ} :
    {A : Type ℓ} (tag : String) (f : A → ℕ → Node)
    → ((a : A) (i : ℕ) → texts_of tag (f a i) ≡ [])
    → (i : ℕ) (items : List A) → texts_of_all tag (to_nodes (map_from i f items)) ≡ []
unfolding texts_of
texts_of_all-map_from tag f h i [] = refl
texts_of_all-map_from tag f h i (a ∷ items) =
    rw (h a i, texts_of_all-map_from tag f h (suc i) items) refl
