-- ===== src/Json/Falsy.antt =====
-- Python's truth of a parsed value, and what a loop over one runs over.
use runboard_lcp.Base.{
  ℕ, String, Bool, true, false, not, Option, none, some, is_empty, if◌then◌else◌,
}
use runboard_lcp.Base.Int.{pos}
use runboard_lcp.Base.Try.{Try, ok, raised, type_error, attribute_error}
use runboard_lcp.Json.{
  Json, Items, Fields, null, bool, int, float, str, arr, obj, nil, cons, end, field, lookup,
}

module _ {F : Type 0} where
  -- `not value`
  unfoldable pub is_falsy : (F → Bool) → Json F → Bool
  is_falsy is_zero null = true
  is_falsy is_zero (bool b) = not b
  is_falsy is_zero (int (pos ℕ.zero)) = true
  is_falsy is_zero (float x) = is_zero x
  is_falsy is_zero (str s) = is_empty s
  is_falsy is_zero (arr nil) = true
  is_falsy is_zero (obj end) = true
  is_falsy is_zero v = false

  -- `value.get(key)`
  unfoldable pub get : String → Json F → Try (Option (Json F))
  get key (obj d) = ok (lookup key d)
  get key v = raised attribute_error

  -- `value.get(key)` where it is truthy, and `none` elsewhere
  unfoldable pub truthy : (F → Bool) → Option (Json F) → Option (Json F)
  unfolding is_falsy
  truthy is_zero none = none
  truthy is_zero (some v) = if is_falsy is_zero v then none else some v

  unfoldable pub characters : String → Items F
  characters String.[] = nil
  characters (String.◌∷◌ c s) = cons (str (String.◌∷◌ c String.[])) (characters s)

  unfoldable pub keys_of : Fields F → Items F
  keys_of end = nil
  keys_of (field k v d) = cons (str k) (keys_of d)

  -- What a loop over a value runs over: a dict's keys, a text's characters.
  unfoldable pub items_of : Json F → Try (Items F)
  unfolding characters keys_of
  items_of (arr xs) = ok xs
  items_of (str s) = ok (characters s)
  items_of (obj d) = ok (keys_of d)
  items_of v = raised type_error

  -- `value or []` in a loop
  unfoldable pub items_or_none : (F → Bool) → Option (Json F) → Try (Items F)
  unfolding is_falsy items_of
  items_or_none is_zero none = ok nil
  items_or_none is_zero (some v) = if is_falsy is_zero v then ok nil else items_of v
