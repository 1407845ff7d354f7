-- ===== src/Regex.antt =====
-- Regular expressions of JavaScript, as far as the site uses them: the backtracking matcher of the
-- language, with ordered alternatives, greedy repetition, capture groups, assertions and a
-- look-ahead, and the methods `exec`, `match` and `test` that stand on it.
-- The library of the language is modelled here, so nothing of this file maps to a source line.
mod Defs
pub mod Matching
pub mod Captures
pub mod Consumed
pub mod Loop
pub mod Fuel
unfoldable pub use Defs.{run, iterate, search, first_match, test, exec_loop}
pub use Defs.{
  Regex, empty, unit, seq, alt, star, boundary, at_start, at_end, ahead, group, State, text_between,
  char, word, opt, plus, one_of, is_digit, is_letter, is_word_unit, is_newline,
}
