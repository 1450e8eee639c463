-- ===== src/Gemini.antt =====
-- backend/app/services/gemini_rag.py: what the service reads from the answers of the Gemini API. An
-- answer is a Python value: None, a text, a dict, an object with attributes, or another value, of which
-- only its truth and its `str` are looked at.
pub mod Operation
pub mod FileId
pub mod Citations
pub mod Mentions
mod Tests
use rag_foundation.Common.{
  Bool, true, false, not, String, if◌then◌else◌, List, [], ◌∷◌, Option, none, some,
}
use rag_foundation.Common.Str.{Str, codes, eq_str, is_empty}

mutual
  pub data Value : Type 0 where
    nothing : Value
    text : Str → Value
    other : Bool → Str → Value
    dict : Fields → Value
    object : Fields → Value

  pub data Fields : Type 0 where
    end : Fields
    field : Str → Value → Fields → Fields

-- `key in d`
unfoldable pub has_key : String → Fields → Bool
has_key key end = false
has_key key (field k v fs) =
    let rest = has_key key fs in if eq_str k (codes key) then true else rest

-- `d.get(key)`
unfoldable pub get : String → Fields → Value
get key end = nothing
get key (field k v fs) = let rest = get key fs in if eq_str k (codes key) then v else rest

-- `getattr(value, key, None)`; only objects have the attributes that are asked for.
unfoldable pub attr : String → Value → Value
attr key (object fs) = get key fs
attr key _ = nothing

-- `value.get(key)` of a dict.
unfoldable pub item : String → Value → Value
item key (dict fs) = get key fs
item key _ = nothing

unfoldable pub is_dict : Value → Bool
is_dict (dict fs) = true
is_dict _ = false

unfoldable pub is_truthy : Value → Bool
is_truthy nothing = false
is_truthy (text s) = not (is_empty s)
is_truthy (other b s) = b
is_truthy (dict end) = false
is_truthy (dict (field k v fs)) = true
is_truthy (object fs) = true

-- `a or b`
unfoldable pub or_value : Value → Value → Value
or_value a b = if is_truthy a then a else b
