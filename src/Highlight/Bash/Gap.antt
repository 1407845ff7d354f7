-- ===== src/Highlight/Bash/Gap.antt =====
-- What is displayed of a shell line: all of it, but for the text before the first option, string,
-- variable, operator or number, from which the loop drops the white space at the end and repeats
-- the white space at the beginning.
use mathlib.Core.Option.{some-injective}
use kube_cell.Common.{
  ℕ, ◌<◌, true, false, [], ◌∷◌, ◌++◌, ◌≡◌, refl, sym, ap, ◌∙◌, inl, inr, Option, none, some, arith,
  Text, length, append_assoc, append-nil, is_empty, trim, trim_end, Option-cases, Bool-cases,
  if◌then◌else◌, ◌>>=◌,
}
use kube_cell.Highlight.Types.{token, plain, command, text_of}
use kube_cell.Highlight.Bash.{
  bash_pattern, bash_type, BashState, leading_spaces, bash_push_plain, bash_step, tokenize_bash,
}
use kube_cell.Highlight.Lossless.Loops.{text_of-push, Shows}
use kube_cell.Highlight.Lossless.Values.{text_of-push_both}
use kube_cell.Regex.{State, text_between, search, exec_loop}
use kube_cell.Regex.Consumed.{Leads-le, Matches-min_width, search_sound}
use kube_cell.Regex.Matching.{Matches}
use kube_cell.Regex.Loop.{exec_loop_inv, exec_loop_total, exec_loop_hit, exec_loop_miss}

-- What is displayed of the text before the first match.
unfoldable pub shown_gap : Text → Text
shown_gap gap = if is_empty (trim gap) then gap else leading_spaces gap ++ trim_end gap

abbrev pub begin : Text → State
begin code = record { seen = []; rest = code; groups = [] }

abbrev pub shown_from : Text → Option (State × State) → Text
shown_from code none = shown_gap code
shown_from code (some (s, t)) =
    shown_gap (text_between (begin code) s) ++ (text_between s t ++ t.rest)

-- What is displayed of the code of a line.
unfoldable pub bash_shown : Text → Text
bash_shown code = shown_from code (search bash_pattern [] code)

bash_push_plain_first :
    (gap : Text) (st : BashState)
    → st.first ≡ true
    → text_of (bash_push_plain gap st).tokens ≡ text_of st.tokens ++ shown_gap gap
unfolding bash_push_plain shown_gap
bash_push_plain_first [] st e = sym (append-nil _)
bash_push_plain_first (c ∷ s) st e = elim (Bool-cases (is_empty (trim (c ∷ s)))) [
  | inl blank ↦ rw (e, blank) (text_of-push st.tokens (c ∷ s) plain)
  | inr written ↦
      rw (e, written)
        (text_of-push_both (leading_spaces (c ∷ s)) (trim_end (c ∷ s)) command st.tokens)
]

bash_push_plain_later :
    (gap : Text) (st : BashState)
    → st.first ≡ false
    → text_of (bash_push_plain gap st).tokens ≡ text_of st.tokens ++ gap
unfolding bash_push_plain
bash_push_plain_later [] st e = sym (append-nil _)
bash_push_plain_later (c ∷ s) st e = rw e (text_of-push st.tokens (c ∷ s) plain)

bash_step_goes :
    (gap value : Text) (acc : BashState)
    → (next : BashState) × (bash_step gap value acc ≡ some next)
unfolding bash_step
bash_step_goes gap value acc = (_, refl)

bash_step_keeps :
    (before : Text) (acc : BashState) (done gap : Text) (s t : State) (next : BashState)
    → Matches bash_pattern s t
    → bash_step gap (text_between s t) acc ≡ some next
    → (acc.first ≡ false) × (text_of acc.tokens ≡ before ++ done)
    → (next.first ≡ false) × (text_of next.tokens ≡ before ++ (done ++ (gap ++ text_between s t)))
unfolding bash_step
bash_step_keeps before acc done gap s t next m made (later, shown) =
    let value = text_between s t in
    let same = some-injective _ _ made in
    let told = bash_push_plain_later gap acc later in
    (
      ap (λ n. n.first) (sym same),
      ap (λ n. text_of n.tokens) (sym same)
          ∙ text_of-push (bash_push_plain gap acc).tokens value (bash_type value)
          ∙ ap (λ v. v ++ value) (told ∙ ap (λ v. v ++ gap) shown)
          ∙ simp append_assoc,
    )

-- Behind the first match every unit is displayed.
bash_loop :
    (fuel : ℕ) (at : State) (st : BashState)
    → length at.rest < fuel
    → st.first ≡ false
    → (out : BashState) × (last : State) × (exec_loop bash_pattern bash_step fuel at st
        ≡ some (out, last))
      × (out.first ≡ false)
      × (text_of out.tokens ++ last.rest ≡ text_of st.tokens ++ at.rest)
bash_loop fuel at st enough later =
    let ((out, last), e) =
      exec_loop_total bash_pattern bash_step (omega arith) bash_step_goes fuel at st enough in
    let (w, splits, (first, shown)) =
      exec_loop_inv bash_pattern bash_step
        (λ acc done. (acc.first ≡ false) × (text_of acc.tokens ≡ text_of st.tokens ++ done))
        (bash_step_keeps (text_of st.tokens)) fuel at st [] out last e
        (later, sym (append-nil _)) in
    (
      out,
      last,
      e,
      first,
      ap (λ v. v ++ last.rest) shown
          ∙ append_assoc (text_of st.tokens) w last.rest
          ∙ ap (λ v. text_of st.tokens ++ v) (sym splits),
    )

-- The first match, and the rest of the loop.
bash_hit :
    (code : Text) (s t : State)
    → search bash_pattern [] code ≡ some (s, t)
    → Shows
        (tokenize_bash code)
        (shown_gap (text_between (begin code) s) ++ (text_between s t ++ t.rest))
unfolding tokenize_bash bash_step
bash_hit code s t hit =
    let gap = text_between (begin code) s in
    let value = text_between s t in
    let start : BashState = record { tokens = []; first = true } in
    let next : BashState = record {
      tokens = (bash_push_plain gap start).tokens ++ token value (bash_type value) ∷ [];
      first = false;
    } in
    let f = search_sound bash_pattern [] code s t hit in
    let (out, last, e, first, shown) =
      bash_loop (length code) t next
        (omega (arith, Matches-min_width bash_pattern s t f.matches, Leads-le _ s f.passes)) refl in
    let round =
      exec_loop_hit bash_pattern bash_step (length code) (begin code) start s t next hit refl in
    record {
      tokens = (bash_push_plain last.rest out).tokens;
      given = rw (round ∙ e, ◌>>=◌) refl;
      displays =
          bash_push_plain_later last.rest out first
          ∙ shown
          ∙ ap (λ v. v ++ t.rest)
              (text_of-push (bash_push_plain gap start).tokens value (bash_type value)
                ∙ ap (λ v. v ++ value) (bash_push_plain_first gap start refl))
          ∙ append_assoc (shown_gap gap) value t.rest;
    }

bash_miss :
    (code : Text) → search bash_pattern [] code ≡ none → Shows (tokenize_bash code) (shown_gap code)
unfolding tokenize_bash
bash_miss code missed =
    let start : BashState = record { tokens = []; first = true } in
    record {
      tokens = (bash_push_plain code start).tokens;
      given =
          rw (exec_loop_miss bash_pattern bash_step (length code) (begin code) start missed, ◌>>=◌)
            refl;
      displays = bash_push_plain_first code start refl;
    }

-- `tokenizeBash` ends, and its tokens display the code, but for the text before the first match.
pub tokenize_bash-Shows : (code : Text) → Shows (tokenize_bash code) (bash_shown code)
unfolding bash_shown
tokenize_bash-Shows code = elim (Option-cases (search bash_pattern [] code)) [
  | inl missed ↦ rw missed (bash_miss code missed)
  | inr ((s, t), hit) ↦ rw hit (bash_hit code s t hit)
]
