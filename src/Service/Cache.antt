-- ===== src/Service/Cache.antt =====
-- backend/internal/cache/redis.go: `RedisCache`. A cache without a client is `none`. User ids are
-- UUIDs, thus ASCII, and a prefix of bytes is one of characters.
use Prim.Native.String
use Prim.Native.String.{[], ◌∷◌, count}
use geo_note.Common.{
  ℕ, zero, suc, String, Bool, Option, none, some, List, length, str_eq, ltb, ◌==◌, if◌then◌else◌,
}
use geo_note.Common.Int.{ℤ}
use geo_note.External.{External}
use geo_note.Model.{Message}
use geo_note.Repository.Query.{panicked, Result, ok, err}

pub prefix : ℕ → String → String
prefix zero s = []
prefix (suc n) [] = []
prefix (suc n) (c ∷ s) = c ∷ prefix n s

infixr 55 ◌^◌
abbrev ◌^◌ : String → String → String
s ^ t = String.◌++◌ s t

module _ (x : External) where
  -- `NewRedisCache`: without an answer to its ping the cache has no client.
  new_redis_cache : Bool → x.Store → Option x.Store
  new_redis_cache answers store = if answers then some store else none

  -- `GridKey`: `userID[:8]` panics on a shorter id.
  unfoldable pub grid_key : ℤ → ℤ → ℤ → String → Result String
  grid_key latitude longitude radius user_id =
      let key = λ (uid : String).
        "grid:"
        ^ x.format_coordinate latitude
        ^ ":"
        ^ x.format_coordinate longitude
        ^ ":"
        ^ x.format_int radius
        ^ ":"
        ^ uid in
      if str_eq user_id ""
      then ok (key "anon")
      else if ltb (count user_id) 8
      then err panicked
      else ok (key (prefix 8 user_id))

  abbrev decode : Option String → Option (List Message)
  decode none = none
  decode (some text) = x.unmarshal_messages text

  -- `Get`, with `none` for an error.
  unfoldable pub get : Option x.Store → String → Option (List Message)
  get none key = none
  get (some store) key = decode (x.redis_get store key)

  abbrev put : x.Store → String → Option String → x.Store
  put store key none = store
  put store key (some text) = (x.redis_set store key text).0

  -- `Set`, whose error the service only logs.
  unfoldable pub set : Option x.Store → String → List Message → Option x.Store
  set none key ms = none
  set (some store) key ms = some (put store key (x.marshal_messages ms))

  -- `InvalidateZone`
  unfoldable pub invalidate_zone : Option x.Store → Option x.Store
  invalidate_zone none = none
  invalidate_zone (some store) =
      let keys = x.redis_scan store "grid:" in
      if length keys == 0 then some store else some (x.redis_del store keys)
