-- ===== src/Stdlib/Mux.antt =====
-- net/http's ServeMux on a path in clean form: a pattern that ends in a slash stands for every path
-- that it begins, any other for itself, and the longest pattern goes first. The mux redirects a path
-- that lacks only the slash of its pattern, and one that is not clean: no handler gets it.
use takuhai.Base.{
  Bool, Bytes, List, Option, [], bytes_eq, false, find_if, has_prefix, if◌then◌else◌, length, ltb,
  none, some, true, ◌&&◌, ◌==◌, ◌∷◌,
}

abbrev pub ends_in_slash : Bytes → Bool
ends_in_slash [] = false
ends_in_slash (c ∷ []) = c == b'/'
ends_in_slash (c ∷ d ∷ s) = ends_in_slash (d ∷ s)

module _ {ℓ} {Handler : Type ℓ} where
  abbrev pub exactly : Bytes → Bytes × Handler → Bool
  exactly path (pattern, h) = bytes_eq pattern path

  -- strings.HasSuffix(pattern, "/") && strings.HasPrefix(path, pattern)
  abbrev pub covers : Bytes → Bytes × Handler → Bool
  covers path (pattern, h) = ends_in_slash pattern && has_prefix pattern path

  abbrev longer : Bytes × Handler → Option (Bytes × Handler) → Bool
  longer e none = true
  longer (pattern, h) (some (q, k)) = ltb (length q) (length pattern)

  -- The longest pattern that covers a path.
  abbrev pub longest :
      Bytes → Option (Bytes × Handler) → List (Bytes × Handler) → Option (Bytes × Handler)
  longest path best [] = best
  longest path best (e ∷ es) =
      longest path (if covers path e && longer e best then some e else best) es

  abbrev pub handler_of : Option (Bytes × Handler) → Option Handler
  handler_of none = none
  handler_of (some (pattern, h)) = some h

  abbrev pub first_or :
      Option (Bytes × Handler) → Option (Bytes × Handler) → Option (Bytes × Handler)
  first_or none later = later
  first_or (some e) later = some e

  unfoldable pub mux : List (Bytes × Handler) → Bytes → Option Handler
  mux patterns path =
      handler_of (first_or (find_if (exactly path) patterns) (longest path none patterns))
