-- ===== src/Highlight/Lossless.antt =====
-- The tokens of a line display the line: what the tokenizers drop or repeat.
pub mod Head
pub mod Loops
pub mod Values
pub mod Lines
