-- ===== src/Core.antt =====
-- acatl: the helpers that the other parts of the library use.
pub mod Strings
pub mod ThreadPool
pub mod Path
pub mod Lexer
pub mod NumericCast
pub mod Easter
pub mod Files
mod Examples
