-- ===== src/Common/StringMap.antt =====
-- Go's `map[string]V`, as a function: `none` is a missing key.
use Prim.Native.String.{String}
use mathlib.Core.Bool.{Bool}
use mathlib.Core.Option.{Option, none, some}
use geo_note.Common.Tests.{str_eq, if◌then◌else◌}

abbrev pub StringMap {ℓ} : Type ℓ → Type ℓ
StringMap V = String → Option V

module _ {ℓ} {V : Type ℓ} where
  abbrev pub empty : StringMap V
  empty k = none

  -- `m[k] = v`
  abbrev pub insert : String → V → StringMap V → StringMap V
  insert k v m j = if str_eq k j then some v else m j

  abbrev keep_entry : (V → Bool) → Option V → Option V
  keep_entry stale none = none
  keep_entry stale (some v) = if stale v then none else some v

  -- `for k, v := range m { if stale(v) { delete(m, k) } }`
  abbrev pub sweep : (V → Bool) → StringMap V → StringMap V
  sweep stale m k = keep_entry stale (m k)
