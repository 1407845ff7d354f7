-- ===== src/Json/Reader/Numbers.antt =====
-- The numbers that `JSON.stringify` writes read back.
use kube_cell.Common.{
  ℕ, zero, suc, ◌<◌, ◌+◌, ◌*◌, ◌-◌, ◌/◌, ◌%◌, Bool, true, false, not, [], ◌∷◌, ◌++◌, some, Text,
  all, ◌≡◌, refl, ◌∙◌, ap, arith, decimal, decimal_from, all-append,
}
use kube_cell.Json.{json_number, json_negsuc}
use kube_cell.Json.Reader.{
  is_digit, is_blank, kind_of, Kind, skip, read, read_digits, read_negative, number_read, negated,
}

-- A number ends before this.
unfoldable pub ends_number : Text → Bool
ends_number [] = true
ends_number (c ∷ s) = not (is_digit c)

unfoldable starts_digit : Text → Bool
starts_digit [] = false
starts_digit (c ∷ s) = is_digit c

abbrev digits_value : ℕ → Text → ℕ
digits_value value [] = value
digits_value value (c ∷ s) = digits_value (value * 10 + (c - b'0')) s

digits_value-append :
    (value : ℕ) (s : Text) (c : ℕ)
    → digits_value value (s ++ c ∷ []) ≡ digits_value value s * 10 + (c - b'0')
digits_value-append value [] c = refl
digits_value-append value (d ∷ s) c = digits_value-append (value * 10 + (d - b'0')) s c

digits_value-decimal_from : (fuel n : ℕ) → n < fuel → digits_value 0 (decimal_from fuel n) ≡ n
digits_value-decimal_from zero n h = absurd (omega arith)
digits_value-decimal_from (suc fuel) n h = ground (
  arith,
  digits_value-append 0 (decimal_from fuel (n / 10)) (48 + n % 10),
  digits_value-decimal_from fuel (n / 10),
)

all_digits-decimal_from : (fuel n : ℕ) → all is_digit (decimal_from fuel n) ≡ true
all_digits-decimal_from zero n = refl
all_digits-decimal_from (suc fuel) n = ground (
  arith,
  all-append is_digit (decimal_from fuel (n / 10)) ((48 + n % 10) ∷ []),
  all_digits-decimal_from fuel (n / 10),
)

starts_digit-append : (s t : Text) → starts_digit s ≡ true → starts_digit (s ++ t) ≡ true
unfolding starts_digit
starts_digit-append [] t h = absurd (cc)
starts_digit-append (c ∷ s) t h = h

starts_digit-decimal_from : (fuel n : ℕ) → n < fuel → starts_digit (decimal_from fuel n) ≡ true
unfolding starts_digit
starts_digit-decimal_from zero n h = absurd (omega arith)
starts_digit-decimal_from (suc fuel) n h = ground (
  arith,
  starts_digit-append (decimal_from fuel (n / 10)) ((48 + n % 10) ∷ []),
  starts_digit-decimal_from fuel (n / 10),
)

read_digits-append :
    (value : ℕ) (s rest : Text)
    → all is_digit s ≡ true
    → ends_number rest ≡ true
    → read_digits value (s ++ rest) ≡ (digits_value value s, rest)
unfolding read_digits ends_number
read_digits-append value [] [] h k = refl
read_digits-append value [] (c ∷ rest) h k = ground arith
read_digits-append value (c ∷ s) rest h k =
    ground (arith, read_digits-append (value * 10 + (c - b'0')) s rest)

not_blank : (c : ℕ) → is_digit c ≡ true → is_blank c ≡ false
not_blank c h = ground arith

kind_of-digit : (c : ℕ) → is_digit c ≡ true → kind_of c ≡ Kind.digit
unfolding kind_of
kind_of-digit c h = ground arith

read-digits :
    (fuel : ℕ) (s : Text)
    → starts_digit s ≡ true
    → read (suc fuel) s ≡ number_read (read_digits 0 s)
unfolding starts_digit read skip
read-digits fuel [] h = absurd (cc)
read-digits fuel (c ∷ s) h = rw (not_blank c h, kind_of-digit c h, read) refl

read_negative-digits :
    (s : Text) → starts_digit s ≡ true → read_negative s ≡ negated (read_digits 0 s)
unfolding starts_digit read_negative
read_negative-digits [] h = absurd (cc)
read_negative-digits (c ∷ s) h = rw h refl

read_digits-decimal :
    (n : ℕ) (rest : Text)
    → ends_number rest ≡ true
    → read_digits 0 (decimal_from (suc n) n ++ rest) ≡ (n, rest)
read_digits-decimal n rest h =
    read_digits-append 0 (decimal_from (suc n) n) rest (all_digits-decimal_from (suc n) n) h
    ∙ ap (λ (m : ℕ). (m, rest)) (digits_value-decimal_from (suc n) n (omega arith))

pub read-number :
    (fuel n : ℕ) (rest : Text)
    → ends_number rest ≡ true
    → read (suc fuel) (decimal n ++ rest) ≡ some (json_number n, rest)
read-number fuel n rest h =
    read-digits fuel (decimal_from (suc n) n ++ rest) (
      starts_digit-append (decimal_from (suc n) n) rest
        (starts_digit-decimal_from (suc n) n (omega arith)))
    ∙ ap number_read (read_digits-decimal n rest h)

pub read-negative :
    (fuel n : ℕ) (rest : Text)
    → ends_number rest ≡ true
    → read (suc fuel) (b'-' ∷ (decimal (suc n) ++ rest)) ≡ some (json_negsuc n, rest)
unfolding read skip kind_of
read-negative fuel n rest h =
    read_negative-digits (decimal_from (suc (suc n)) (suc n) ++ rest) (
      starts_digit-append (decimal_from (suc (suc n)) (suc n)) rest
        (starts_digit-decimal_from (suc (suc n)) (suc n) (omega arith)))
    ∙ ap negated (read_digits-decimal (suc n) rest h)
