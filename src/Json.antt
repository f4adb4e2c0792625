-- ===== src/Json.antt =====
-- common/hash/canonical-hash.ts: JSON values and their canonical form.
-- An object is the list of its own keys in insertion order. A number is a decimal literal.
-- `sha256Hex` (node:crypto) and `JSON.stringify` are parameters of `hash_payload`.
pub mod Order
pub mod Laws
pub mod Content
use triage_engine.Prelude.{
  ℕ, Text, codes, text_eq, text_leb, Bool, if◌then◌else◌, Option, none, some,
}

-- digits / 10 ^ scale, with a sign.
pub record Decimal : Type 0 where
  pub negative : Bool
  pub digits : ℕ
  pub scale : ℕ

mutual
  pub data Json : Type 0 where
    null : Json
    bool : Bool → Json
    num : Decimal → Json
    str : Text → Json
    arr : Items → Json
    obj : Fields → Json

  pub data Items : Type 0 where
    nil : Items
    cons : Json → Items → Items

  pub data Fields : Type 0 where
    end : Fields
    field : Text → Json → Fields → Fields

-- `json[key]` of an object's own keys.
unfoldable pub get_field : Text → Fields → Option Json
get_field key end = none
get_field key (field k v fields) = if text_eq k key then some v else get_field key fields

-- `Object.keys(value).sort()`, with each key's value beside it: by code units.
pub insert_field : Text → Json → Fields → Fields
insert_field k v end = field k v end
insert_field k v (field j w fs) =
    if text_leb k j then field k v (field j w fs) else field j w (insert_field k v fs)

-- `acc[key] = value` on an object literal: the key `__proto__` sets the prototype, and makes no
-- own property.
abbrev pub proto_key : Text
proto_key = codes "__proto__"

pub assign : Text → Json → Fields → Fields
assign k v fs = if text_eq k proto_key then fs else insert_field k v fs

mutual
  pub canonicalize : Json → Json
  canonicalize null = null
  canonicalize (bool b) = bool b
  canonicalize (num d) = num d
  canonicalize (str s) = str s
  canonicalize (arr xs) = arr (canonicalize_items xs)
  canonicalize (obj fs) = obj (canonicalize_fields fs)

  pub canonicalize_items : Items → Items
  canonicalize_items nil = nil
  canonicalize_items (cons x xs) = cons (canonicalize x) (canonicalize_items xs)

  pub canonicalize_fields : Fields → Fields
  canonicalize_fields end = end
  canonicalize_fields (field k v fs) = assign k (canonicalize v) (canonicalize_fields fs)

module _ (sha256_hex : Text → Text) (stringify : Json → Text) where
  unfoldable pub hash_payload : Json → Text
  hash_payload payload = sha256_hex (stringify (canonicalize payload))
