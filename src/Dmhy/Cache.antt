-- ===== src/Dmhy/Cache.antt =====
-- sources/dmhy/cache.go: the cache of fetched pages, whose entries live for a fixed time.
pub mod Latest
mod Tests
use takuhai.Base.{
  Bytes, Int64, Option, Time, add_time, bytes_eq, if◌then◌else◌, ltb, map_option, none, some, ◌++◌,
  ◌∷◌,
}
use takuhai.Stdlib.Decimal.{itoa}

pub record PageEntry : Type 0 where
  pub body : Bytes
  pub expires : Time

-- The map of the cache, by the text of its keys.
abbrev pub Items : Type 0
Items = Bytes → Option PageEntry

abbrev pub no_items : Items
no_items key = none

pub page_cache_key : Int64 → Int64 → Bytes
page_cache_key sort_id page = itoa sort_id ++ (b'|' ∷ itoa page)

pub fresh : Time → Option PageEntry → Option PageEntry
fresh now none = none
fresh now (some e) = if ltb now e.expires then some e else none

-- get, with what the clock reads then.
pub get_page : Time → Bytes → Items → Option Bytes
unfolding fresh
get_page now key items = map_option (λ e. e.body) (fresh now (items key))

-- put: the expired entries are dropped, then the page is stored.
pub put_page : Int64 → Time → Bytes → Bytes → Items → Items
unfolding fresh
put_page ttl now key body items k =
    if bytes_eq key k
    then some (record { body = body; expires = add_time now ttl })
    else fresh now (items k)

pub after_fetch : Int64 → Time → Bytes → Option Bytes → Items → Items × Option Bytes
unfolding put_page
after_fetch ttl now key none items = (items, none)
after_fetch ttl now key (some body) items = (put_page ttl now key body items, some body)

-- wrap, with what the clock reads when the page is looked up and when it is stored.
pub wrap :
    Int64
    → Time
    → Time
    → (Int64 → Int64 → Option Bytes)
    → Int64
    → Int64
    → Items
    → Items × Option Bytes
unfolding page_cache_key get_page after_fetch
wrap ttl at_get at_put fetch sort_id page items =
    let key = page_cache_key sort_id page in
    elim (get_page at_get key items) [
      | some body ↦ (items, some body)
      | none ↦ after_fetch ttl at_put key (fetch sort_id page) items
    ]
