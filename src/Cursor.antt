-- ===== src/Cursor.antt =====
-- internal/cursor/cursor.go: the shape of a ref.
pub mod Ref
pub mod Token
mod Tests
