-- ===== src/Regex/Loop.antt =====
-- The loop `while ((match = pattern.exec(text)) !== null)`: an invariant rule, and enough fuel.
use mathlib.Core.Path.{subst}
use kube_cell.Common.{
  ℕ, zero, suc, ◌<◌, [], ◌++◌, ◌≡◌, refl, sym, ap, ◌∙◌, ◌⊎◌, inl, inr, Option, none, some, arith,
  Text, length, Option-cases, append_assoc, append-nil, ◌>>=◌,
}
use kube_cell.Regex.Defs.{Regex, State, text_between, search, exec_loop}
use kube_cell.Regex.Matching.{Matches}
use kube_cell.Regex.Consumed.{
  Leads, Matches-Leads, text_between_splits, Leads-le, min_width, Matches-min_width, search_sound,
}

pub bind_some {ℓ κ} :
    {A : Type ℓ} {B : Type κ} (o : Option A) (k : A → Option B) {b : B}
    → (o >>= k) ≡ some b
    → (a : A) × (o ≡ some a) × (k a ≡ some b)
bind_some none k h = cc
bind_some (some a) k h = (a, refl, h)

round_cases {ℓ} :
    {S : Type ℓ} (o : Option (State × State)) (at : State) (acc : S)
    (cont : State → State → Option (S × State)) (out : S) (last : State)
    → ◌≡◌ {A = Option (S × State)}
        (elim o [ none ↦ some (acc, at) | some (s, t) ↦ cont s t ])
        (some (out, last))
    → ((acc ≡ out) × (at ≡ last))
      ⊎ ((s : State) × (t : State) × (o ≡ some (s, t)) × (cont s t ≡ some (out, last)))
round_cases none at acc cont out last h = inl (cc, cc)
round_cases (some (s, t)) at acc cont out last h = inr (s, t, refl, h)

Leads-splits :
    (at s t : State)
    → Leads at s
    → Leads s t
    → at.rest ≡ (text_between at s ++ text_between s t) ++ t.rest
Leads-splits at s t p q =
    text_between_splits at s p
    ∙ ap (◌++◌ (text_between at s)) (text_between_splits s t q)
    ∙ sym (append_assoc (text_between at s) (text_between s t) t.rest)

-- `I acc done` relates what is accumulated to the units that the loop has passed.
module _ {ℓ κ} {S : Type ℓ} (r : Regex) (body : Text → Text → S → Option S) (I : S → Text → Type κ)
    (keep : (acc : S) (done gap : Text) (s t : State) (next : S)
      → Matches r s t
      → body gap (text_between s t) acc ≡ some next
      → I acc done
      → I next (done ++ (gap ++ text_between s t))) where
  pub exec_loop_inv :
      (fuel : ℕ) (at : State) (acc : S) (done : Text) (out : S) (last : State)
      → exec_loop r body fuel at acc ≡ some (out, last)
      → I acc done
      → (w : Text) × (at.rest ≡ w ++ last.rest) × I out (done ++ w)
  unfolding exec_loop
  exec_loop_inv zero at acc done out last h i = cc
  exec_loop_inv (suc fuel) at acc done out last h i =
      elim (round_cases (search r at.seen at.rest) at acc _ out last h) [
        | inl (same, here) ↦
            ([], ap (λ u. u.rest) here, rw append-nil (subst (λ a. I a done) same i))
        | inr (s, t, hit, h') ↦
            let f = search_sound r at.seen at.rest s t hit in
            let passed = text_between at s in
            let (next, made, h'') = bind_some (body passed (text_between s t) acc) _ h' in
            let i' = keep acc done passed s t next f.matches made i in
            let (w, splits, i'') = exec_loop_inv fuel t next _ out last h'' i' in
            (
              (passed ++ text_between s t) ++ w,
              Leads-splits at s t
                    (record {
                      consumed = f.passes.consumed;
                      splits = f.passes.splits;
                      keeps = f.passes.keeps;
                    })
                    (Matches-Leads r s t f.matches)
                  ∙ ap (◌++◌ (passed ++ text_between s t)) splits
                  ∙ sym (append_assoc _ w last.rest),
              subst (I out) (append_assoc done _ w) i'',
            )
      ]

-- The loop ends where every match takes something and the body does not fail: the fuel is enough.
module _ {ℓ} {S : Type ℓ} (r : Regex) (body : Text → Text → S → Option S) (wide : 0 < min_width r)
    (goes : (gap value : Text) (acc : S) → (next : S) × (body gap value acc ≡ some next)) where
  pub exec_loop_total :
      (fuel : ℕ) (at : State) (acc : S)
      → length at.rest < fuel
      → (out : S × State) × (exec_loop r body fuel at acc ≡ some out)
  unfolding exec_loop
  exec_loop_total zero at acc h = absurd (omega arith)
  exec_loop_total (suc fuel) at acc h = elim (Option-cases (search r at.seen at.rest)) [
    | inl finished ↦ ((acc, at), rw (finished, exec_loop) refl)
    | inr ((s, t), hit) ↦
        let f = search_sound r at.seen at.rest s t hit in
        let (next, made) = goes (text_between at s) (text_between s t) acc in
        let (out, e) =
          exec_loop_total fuel t next
            (omega (arith, Matches-min_width r s t f.matches, Leads-le _ s f.passes)) in
        (out, rw (hit, exec_loop) (rw (made, ◌>>=◌) e))
  ]

-- One round of the loop.
module _ {ℓ} {S : Type ℓ} (r : Regex) (body : Text → Text → S → Option S) (fuel : ℕ) (at : State)
    (acc : S) where
  pub exec_loop_hit :
      (s t : State) (next : S)
      → search r at.seen at.rest ≡ some (s, t)
      → body (text_between at s) (text_between s t) acc ≡ some next
      → exec_loop r body (suc fuel) at acc ≡ exec_loop r body fuel t next
  unfolding exec_loop
  exec_loop_hit s t next hit made = rw (hit, exec_loop) (rw (made, ◌>>=◌) refl)

  pub exec_loop_miss :
      search r at.seen at.rest ≡ none → exec_loop r body (suc fuel) at acc ≡ some (acc, at)
  unfolding exec_loop
  exec_loop_miss missed = rw (missed, exec_loop) refl
