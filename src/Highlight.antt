-- ===== src/Highlight.antt =====
-- website/lib/highlight.ts, the highlighter of one line of code.
pub mod Types
pub mod Patterns
pub mod Comments
pub mod Yaml
pub mod Bash
pub mod Go
pub mod Json
pub mod Line
pub mod JsonKeys
pub mod Lossless
mod Tests
pub mod TokenTypes
