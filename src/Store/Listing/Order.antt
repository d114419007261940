-- ===== src/Store/Listing/Order.antt =====
-- The order of the listing is a strict total order on rows with different infohashes.
use takuhai.Base.{
  Bytes, [], arith, bytes_eq, bytes_lt, bytes_ne, false, refl, sym, true, ◌∷◌, ◌≡◌, ◌≢◌,
}
use takuhai.Store.{Release}
use takuhai.Cursor.Token.{CursorPath}
use takuhai.Store.Listing.{is_below, row_before}

bytes_lt_trans : (a b c : Bytes) → bytes_lt a b ≡ true → bytes_lt b c ≡ true → bytes_lt a c ≡ true
bytes_lt_trans [] [] c h k = cc
bytes_lt_trans [] (y ∷ b) [] h k = cc k
bytes_lt_trans [] (y ∷ b) (z ∷ c) h k = refl
bytes_lt_trans (x ∷ a) [] c h k = cc h
bytes_lt_trans (x ∷ a) (y ∷ b) [] h k = cc k
bytes_lt_trans (x ∷ a) (y ∷ b) (z ∷ c) h k = ground (arith, h, k, bytes_lt_trans a b c)

bytes_lt_irrefl : (a : Bytes) → bytes_lt a a ≡ false
bytes_lt_irrefl [] = refl
bytes_lt_irrefl (x ∷ a) = ground (arith, bytes_lt_irrefl a)

bytes_lt_total : (a b : Bytes) → bytes_eq a b ≡ false → bytes_lt a b ≡ false → bytes_lt b a ≡ true
bytes_lt_total [] [] e h = cc e
bytes_lt_total [] (y ∷ b) e h = cc h
bytes_lt_total (x ∷ a) [] e h = refl
bytes_lt_total (x ∷ a) (y ∷ b) e h = ground (arith, e, h, bytes_lt_total a b)

module _ (path : CursorPath) where
  pub row_before_trans :
      (a b c : Release)
      → row_before path a b ≡ true
      → row_before path b c ≡ true
      → row_before path a c ≡ true
  unfolding row_before is_below
  row_before_trans a b c h k = ground (arith, h, k, bytes_lt_trans c.infohash b.infohash a.infohash)

  pub row_before_irrefl : (a : Release) → row_before path a a ≡ false
  unfolding row_before is_below
  row_before_irrefl a = ground (arith, bytes_lt_irrefl a.infohash)

  pub row_before_total :
      (a b : Release)
      → a.infohash ≢ b.infohash
      → row_before path a b ≡ false
      → row_before path b a ≡ true
  unfolding row_before is_below
  row_before_total a b other h = ground (
    arith,
    h,
    bytes_lt_total b.infohash a.infohash (bytes_ne b.infohash a.infohash (λ e. other (sym e))),
  )
