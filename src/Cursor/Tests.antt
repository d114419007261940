-- ===== src/Cursor/Tests.antt =====
-- Runs on refs.
use takuhai.Base.{codes, ◌↔◌, ◌≡◌}
use takuhai.Errors.{ok}
use takuhai.Cursor.Ref.{validate_ref, IsRef, validate_ref_iff}

validate_ref_iff_example : (validate_ref (codes "tvdb:81189") ≡ ok tt) ↔ IsRef (codes "tvdb:81189")
validate_ref_iff_example = validate_ref_iff (codes "tvdb:81189")
