-- ===== src/Highlight/Lossless/Values.antt =====
-- `tokenizeJson`, `tokenizeGo` and the values of a YAML line: the tokens display the text.
use kube_cell.Common.{
  List, [], ◌∷◌, ◌++◌, ◌≡◌, refl, sym, ap, ◌∙◌, arith, Text, append_assoc, append-nil, ◌>>=◌,
}
use kube_cell.Highlight.Types.{TokenType, string, keyword, Token, token, text_of}
use kube_cell.Highlight.Patterns.{push_plain}
use kube_cell.Highlight.Yaml.{yaml_pattern, yaml_type, yaml_value, yaml_values}
use kube_cell.Highlight.Json.{json_pattern, json_type, json_step, tokenize_json}
use kube_cell.Highlight.Go.{go_keywords, go_pattern, go_word, push_code, go_step, tokenize_go}
use kube_cell.Highlight.Lossless.Loops.{text_of-push_plain, text_of-push, Shows, exec_loop_shows}

pub text_of-push_both :
    (gap value : Text) (t : TokenType) (acc : List Token)
    → text_of (push_plain gap acc ++ token value t ∷ []) ≡ text_of acc ++ (gap ++ value)
text_of-push_both gap value t acc =
    text_of-push (push_plain gap acc) value t
    ∙ ap (λ w. w ++ value) (text_of-push_plain gap acc)
    ∙ append_assoc (text_of acc) gap value

yaml_value-Shows :
    (gap value : Text) (acc : List Token)
    → Shows (yaml_value gap value acc) (text_of acc ++ (gap ++ value))
unfolding yaml_value
yaml_value-Shows gap value acc = record {
  tokens = _;
  given = refl;
  displays = text_of-push_both gap value (yaml_type value) acc;
}

pub yaml_values-Shows :
    (tokens : List Token) (rest : Text)
    → Shows (yaml_values (tokens, rest)) (text_of tokens ++ rest)
unfolding yaml_values
yaml_values-Shows tokens rest =
    let (out, last, e, shown) =
      exec_loop_shows yaml_pattern yaml_value (omega arith) yaml_value-Shows
        (record { seen = []; rest = rest; groups = [] }) tokens in
    record {
      tokens = push_plain last.rest out;
      given = rw (e, ◌>>=◌) refl;
      displays = text_of-push_plain last.rest out ∙ shown;
    }

json_step-Shows :
    (gap value : Text) (acc : List Token)
    → Shows (json_step gap value acc) (text_of acc ++ (gap ++ value))
unfolding json_step
json_step-Shows gap value acc = record {
  tokens = _;
  given = refl;
  displays = text_of-push_both gap value (json_type value) acc;
}

pub tokenize_json-Shows : (code : Text) → Shows (tokenize_json code) code
unfolding tokenize_json
tokenize_json-Shows code =
    let (out, last, e, shown) =
      exec_loop_shows json_pattern json_step (omega arith) json_step-Shows
        (record { seen = []; rest = code; groups = [] }) [] in
    record {
      tokens = push_plain last.rest out;
      given = rw (e, ◌>>=◌) refl;
      displays = text_of-push_plain last.rest out ∙ shown;
    }

go_word-Shows :
    (gap value : Text) (acc : List Token)
    → Shows (go_word gap value acc) (text_of acc ++ (gap ++ value))
unfolding go_word
go_word-Shows gap value acc = record {
  tokens = _;
  given = refl;
  displays = text_of-push_both gap value keyword acc;
}

push_code-Shows :
    (code : Text) (tokens : List Token) → Shows (push_code code tokens) (text_of tokens ++ code)
unfolding push_code
push_code-Shows [] tokens = record { tokens = tokens; given = refl; displays = sym (append-nil _) }
push_code-Shows (c ∷ s) tokens =
    let (out, last, e, shown) =
      exec_loop_shows go_keywords go_word (omega arith) go_word-Shows
        (record { seen = []; rest = c ∷ s; groups = [] }) tokens in
    record {
      tokens = push_plain last.rest out;
      given = rw (e, ◌>>=◌) refl;
      displays = text_of-push_plain last.rest out ∙ shown;
    }

go_step-Shows :
    (gap value : Text) (acc : List Token)
    → Shows (go_step gap value acc) (text_of acc ++ (gap ++ value))
unfolding go_step
go_step-Shows gap value acc =
    let h = push_code-Shows gap acc in
    record {
      tokens = h.tokens ++ token value string ∷ [];
      given = rw (h.given, ◌>>=◌) refl;
      displays =
          text_of-push h.tokens value string
          ∙ ap (λ w. w ++ value) h.displays
          ∙ append_assoc (text_of acc) gap value;
    }

pub tokenize_go-Shows : (code : Text) → Shows (tokenize_go code) code
unfolding tokenize_go
tokenize_go-Shows code =
    let (out, last, e, shown) =
      exec_loop_shows go_pattern go_step (omega arith) go_step-Shows
        (record { seen = []; rest = code; groups = [] }) [] in
    let h = push_code-Shows last.rest out in
    record { tokens = h.tokens; given = rw (e, ◌>>=◌) h.given; displays = h.displays ∙ shown }
