-- ===== src/Gofixerr.antt =====
-- gofixerr: rewrite Go source files.
pub mod Edit
