-- ===== src/Highlight/Lossless/Head.antt =====
-- The key of a YAML line, or the dash of a list item: its tokens display what is cut off the line.
use kube_cell.Common.{
  List, [], ◌∷◌, ◌++◌, ◌≡◌, refl, sym, ap, ◌∙◌, inl, inr, none, some, Text, length, drop,
  append_assoc, append-nil, is_space, Option-cases, drop-append_left,
}
use kube_cell.Highlight.Types.{Token, key, plain, punct, token, text_of}
use kube_cell.Highlight.Patterns.{spaces, push_plain}
use kube_cell.Highlight.Yaml.{key_name, yaml_key, yaml_item, yaml_item_head, yaml_head}
use kube_cell.Highlight.Lossless.Loops.{text_of-push_plain}
use kube_cell.Regex.{
  Regex, seq, at_start, unit, char, plus, State, text_between, search, first_match,
}
use kube_cell.Regex.Captures.{Captures, Captures-group, Captures-seq, Captures-from}
use kube_cell.Regex.Consumed.{Matches-Leads, text_between_splits, search_sound, search-at_start}

first_match-none : (r : Regex) (code : Text) → search r [] code ≡ none → first_match r code ≡ none
unfolding first_match
first_match-none r code e = rw e refl

first_match-some :
    (r : Regex) (code : Text) (s t : State)
    → search r [] code ≡ some (s, t)
    → first_match r code ≡ some (text_between s t, t.groups)
unfolding first_match
first_match-some r code s t e = rw e refl

-- The tokens of the head display the line up to what is left of it.
pub record HeadShows (head : List Token × Text) (code : Text) : Type 0 where
  pub whole : text_of head.0 ++ head.1 ≡ code

-- What `slice(match[0].length)` leaves behind a match at the beginning.
drop_whole : (code whole rest : Text) → whole ++ rest ≡ code → drop (length whole) code ≡ rest
drop_whole code whole rest e = rw (← e) (drop-append_left whole rest)

text_of-push_first :
    (x : Text) (ts : List Token) → text_of (push_plain x [] ++ ts) ≡ x ++ text_of ts
text_of-push_first [] ts = refl
text_of-push_first (c ∷ x) ts = refl

four_parts : (x y z w : Text) → (x ++ (y ++ (z ++ []))) ++ w ≡ x ++ (y ++ (z ++ (w ++ [])))
four_parts x y z w = simp (append_assoc, append-nil)

item_groups :
    (code : Text) (s t : State) {x y z : Text}
    → Captures s t (x ∷ y ∷ z ∷ [])
    → s.rest ≡ code
    → text_between s t ++ t.rest ≡ code
    → s.groups ≡ []
    → HeadShows (yaml_item_head code (some (text_between s t, t.groups))) code
unfolding yaml_item_head
item_groups code s t {x} {y} {z} caught e whole fresh =
    rw (caught.held, fresh)
      (record {
        whole =
            ap (◌++◌ (text_of (push_plain x [] ++ token y punct ∷ token z plain ∷ [])))
              (drop_whole code (text_between s t) t.rest whole)
            ∙ ap (λ w. w ++ t.rest) (text_of-push_first x _)
            ∙ sym caught.splits
            ∙ e;
      })

key_groups :
    (code : Text) (s t : State) {x y z w : Text}
    → Captures s t (x ∷ y ∷ z ∷ w ∷ [])
    → s.rest ≡ code
    → text_between s t ++ t.rest ≡ code
    → s.groups ≡ []
    → HeadShows (yaml_head code (some (text_between s t, t.groups))) code
unfolding yaml_head
key_groups code s t {x} {y} {z} {w} caught e whole fresh =
    rw (caught.held, fresh)
      (record {
        whole =
            ap (◌++◌ (text_of (push_plain w (push_plain x [] ++ token y key ∷ token z punct ∷ []))))
              (drop_whole code (text_between s t) t.rest whole)
            ∙ ap (λ v. v ++ t.rest)
                (text_of-push_plain w (push_plain x [] ++ token y key ∷ token z punct ∷ [])
                  ∙ ap (λ v. v ++ w) (text_of-push_first x _)
                  ∙ four_parts x y z w)
            ∙ sym caught.splits
            ∙ e;
      })

-- A match of an anchored expression splits the line.
splits_whole :
    (r : Regex) (code : Text) (s t : State)
    → search (seq at_start r) [] code ≡ some (s, t)
    → (s.rest ≡ code) × (text_between s t ++ t.rest ≡ code)
splits_whole r code s t hit =
    let f = search_sound (seq at_start r) [] code s t hit in
    let e = search-at_start r code s t hit in
    (e, sym (text_between_splits s t (Matches-Leads (seq at_start r) s t f.matches)) ∙ e)

yaml_item_head-HeadShows :
    (code : Text) → HeadShows (yaml_item_head code (first_match yaml_item code)) code
yaml_item_head-HeadShows code = elim (Option-cases (search yaml_item [] code)) [
  | inl missed ↦
      rw (first_match-none yaml_item code missed) (unfold yaml_item_head in record { whole = refl })
  | inr ((s, t), hit) ↦
      let f = search_sound yaml_item [] code s t hit in
      let (e, whole) = splits_whole _ code s t hit in
      let (u, (_, same), (v, a, (w, b, c))) = f.matches in
      let caught = Captures-from s u t _ same (
        Captures-seq spaces u v t _ tt a (
          Captures-seq (char b'-') v w t _ tt b
            (Captures-group (plus (unit is_space)) w t (tt, tt) c))) in
      rw (first_match-some yaml_item code s t hit) (item_groups code s t caught e whole f.fresh)
]

pub yaml_head-HeadShows :
    (code : Text) → HeadShows (yaml_head code (first_match yaml_key code)) code
yaml_head-HeadShows code = elim (Option-cases (search yaml_key [] code)) [
  | inl missed ↦
      rw (first_match-none yaml_key code missed) (unfold yaml_head in yaml_item_head-HeadShows code)
  | inr ((s, t), hit) ↦
      let f = search_sound yaml_key [] code s t hit in
      let (e, whole) = splits_whole _ code s t hit in
      let (u, (_, same), (v, a, (w, b, (x, c, d)))) = f.matches in
      let caught = Captures-from s u t _ same (
        Captures-seq spaces u v t _ tt a (
          Captures-seq key_name v w t _ (tt, tt) b
            (Captures-seq (char b':') w x t _ tt c (Captures-group spaces x t tt d)))) in
      rw (first_match-some yaml_key code s t hit) (key_groups code s t caught e whole f.fresh)
]
