-- ===== src/Json/Reader/Strings.antt =====
-- The strings that `JSON.stringify` quotes read back.
use kube_cell.Common.{
  ℕ, suc, ◌<◌, ◌+◌, ◌*◌, ◌/◌, ◌%◌, Bool, true, false, ◌&&◌, [], ◌∷◌, ◌++◌, some, Text, ◌≡◌, refl,
  ◌∙◌, ap, arith, append_assoc, and-true,
}
use kube_cell.Json.{
  is_high, is_low, starts_low, hex_digit, unicode_escape, escape, unit_text, escape_all,
}
use kube_cell.Json.Reader.{plain, hex, hex_value, push, read_units}

hex_value-hex_digit : (n : ℕ) → hex_value (hex_digit (n % 16)) ≡ some (n % 16)
unfolding hex_digit hex_value
hex_value-hex_digit n = ground arith

read-hex_more :
    (more value d digit : ℕ) (s : Text)
    → hex_value d ≡ some digit
    → read_units (hex (suc more) value) (d ∷ s) ≡ read_units (hex more (value * 16 + digit)) s
unfolding read_units
read-hex_more more value d digit s e = rw (e, read_units) refl

read-hex_last :
    (value d digit : ℕ) (s : Text)
    → hex_value d ≡ some digit
    → read_units (hex 0 value) (d ∷ s) ≡ push (value * 16 + digit) (read_units plain s)
unfolding read_units
read-hex_last value d digit s e = rw (e, read_units) refl

read-escaped_u : (s : Text) → read_units plain (b'\\' ∷ b'u' ∷ s) ≡ read_units (hex 3 0) s
unfolding read_units
read-escaped_u s = refl

pub read-unicode_escape :
    (c : ℕ) (rest : Text)
    → c < 0x10000
    → read_units plain (unicode_escape c ++ rest) ≡ push c (read_units plain rest)
unfolding unicode_escape
read-unicode_escape c rest h =
    read-escaped_u _
    ∙ read-hex_more 2 0 _ _ _ (hex_value-hex_digit (c / 4096))
    ∙ read-hex_more 1 _ _ _ _ (hex_value-hex_digit (c / 256))
    ∙ read-hex_more 0 _ _ _ _ (hex_value-hex_digit (c / 16))
    ∙ read-hex_last _ _ _ _ (hex_value-hex_digit c)
    ∙ ap (λ (d : ℕ). push d (read_units plain rest)) (omega arith)

read-escape :
    (c : ℕ) (rest : Text) → read_units plain (escape c ++ rest) ≡ push c (read_units plain rest)
unfolding read_units escape
read-escape c rest = ground (arith, read-unicode_escape c rest)

-- The low half of a pair stands as it is.
abbrev PairedLow : Bool → ℕ → Type 0
PairedLow paired c = paired ≡ true → is_low c ≡ true

read-unit_text :
    (paired before_low : Bool) (c : ℕ) (rest : Text)
    → PairedLow paired c
    → read_units plain (unit_text paired before_low c ++ rest) ≡ push c (read_units plain rest)
unfolding read_units unit_text
read-unit_text true before_low c rest h = ground (arith, h refl)
read-unit_text false before_low c rest h =
    ground (arith, read-unicode_escape c rest, read-escape c rest)

read-escape_all :
    (paired : Bool) (s rest : Text)
    → (paired ≡ true → starts_low s ≡ true)
    → read_units plain (escape_all paired s ++ b'"' ∷ rest) ≡ some (s, rest)
unfolding escape_all read_units
read-escape_all paired [] rest h = refl
read-escape_all paired (c ∷ s) rest h = simp (
  append_assoc,
  read-unit_text paired (starts_low s) c _ h,
  read-escape_all (is_high c && starts_low s) s rest
      (λ e. (and-true (is_high c) (starts_low s) e).1),
)

-- A quoted string reads as the string, whatever follows.
pub read-quoted :
    (s rest : Text) → read_units plain (escape_all false s ++ b'"' ∷ rest) ≡ some (s, rest)
read-quoted s rest = read-escape_all false s rest (λ e. cc)
