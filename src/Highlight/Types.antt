-- ===== src/Highlight/Types.antt =====
-- website/lib/highlight.ts: tokens, languages, and the CSS classes of the token types.
use kube_cell.Common.{List, [], ◌∷◌, ◌++◌, Text, units, ◌≡◌, refl, append_assoc, ap, sym, ◌∙◌}

pub data TokenType : Type 0 where
  plain comment key string number flag command keyword punct : TokenType

pub record Token : Type 0 where
  pub text : Text
  pub type : TokenType

pub data Language : Type 0 where
  yaml bash shell go json text : Language

-- `{ text: s, type: t }`
abbrev pub token : Text → TokenType → Token
token s t = record { text = s; type = t }

-- What a row of tokens displays.
abbrev pub text_of : List Token → Text
text_of [] = []
text_of (t ∷ ts) = t.text ++ text_of ts

pub text_of-append : (ts us : List Token) → text_of (ts ++ us) ≡ text_of ts ++ text_of us
text_of-append [] us = refl
text_of-append (t ∷ ts) us =
    ap (◌++◌ t.text) (text_of-append ts us) ∙ sym (append_assoc t.text (text_of ts) (text_of us))

unfoldable pub token_class_name : TokenType → Text
token_class_name plain = units ""
token_class_name comment = units "text-slate-500 italic"
token_class_name key = units "text-sky-300"
token_class_name string = units "text-emerald-300/90"
token_class_name number = units "text-amber-300/90"
token_class_name flag = units "text-violet-300/90"
token_class_name command = units "text-sky-200 font-medium"
token_class_name keyword = units "text-fuchsia-300/90"
token_class_name punct = units "text-slate-400"
