-- ===== src/App.antt =====
-- acatl_application: the options of a command line.
pub mod Options
mod Examples
