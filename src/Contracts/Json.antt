-- ===== src/Contracts/Json.antt =====
-- JSON values (contracts/src/validation.ts, `JsonValue`). A number is the text that
-- `JSON.stringify` prints for it: the kernel computes with no number of a payload.
use openthrottle.Base.{
  ℕ, suc, Bool, true, false, ◌&&◌, ◌||◌, Option, none, some, List, [], ◌∷◌, Text, ltb, ◌==◌,
  if◌then◌else◌, list_eq, nat_eq, length, is_empty, Result, ok, ◌>>◌, throw_if,
}

mutual
  pub data Json : Type 0 where
    null : Json
    bool : Bool → Json
    num : Text → Json
    str : Text → Json
    arr : Items → Json
    obj : Fields → Json

  pub data Items : Type 0 where
    nil : Items
    cons : Json → Items → Items

  pub data Fields : Type 0 where
    end : Fields
    field : Text → Json → Fields → Fields

-- `value[name]` of an object, `none` for `undefined`
unfoldable pub member : Text → Fields → Option Json
member name end = none
member name (field k v fs) = if k == name then some v else member name fs

unfoldable pub member_names : Fields → List Text
member_names end = []
member_names (field k v fs) = k ∷ member_names fs

-- `value && typeof value === "object" && !Array.isArray(value)`
abbrev pub as_object : Json → Option Fields
as_object (obj fs) = some fs
as_object _ = none

-- `typeof value === "string"`
abbrev pub as_string : Option Json → Option Text
as_string (some (str s)) = some s
as_string _ = none

-- `value === s` for a string `s`
abbrev pub is_string : Option Json → Text → Bool
is_string (some (str s)) t = s == t
is_string _ t = false

bool_beq : Bool → Bool → Bool
bool_beq true b = b
bool_beq false true = false
bool_beq false false = true

-- `JSON.stringify(a) === JSON.stringify(b)`: the same value with its keys in the same order
unfoldable mutual
  unfolding bool_beq

  pub json_beq : Json → Json → Bool
  json_beq null null = true
  json_beq (bool a) (bool b) = bool_beq a b
  json_beq (num s) (num t) = s == t
  json_beq (str s) (str t) = s == t
  json_beq (arr xs) (arr ys) = items_beq xs ys
  json_beq (obj fs) (obj gs) = fields_beq fs gs
  json_beq _ _ = false

  pub items_beq : Items → Items → Bool
  items_beq nil nil = true
  items_beq (cons x xs) (cons y ys) = json_beq x y && items_beq xs ys
  items_beq _ _ = false

  pub fields_beq : Fields → Fields → Bool
  fields_beq end end = true
  fields_beq (field j v fs) (field k w gs) = j == k && json_beq v w && fields_beq fs gs
  fields_beq _ _ = false

count_items : Items → ℕ
count_items nil = 0
count_items (cons x xs) = suc (count_items xs)

count_fields : Fields → ℕ
count_fields end = 0
count_fields (field k v fs) = suc (count_fields fs)

-- jsonValueAt with its default options: depth 16, 1,024 entries, keys of 200 code units. A value
-- that passes is returned as it was given, so only the failure is modelled.
unfoldable mutual
  unfolding count_items count_fields

  pub check_json : ℕ → Json → Result (Unit {0})
  check_json depth (arr xs) =
      throw_if (ltb 16 depth) "${path}: exceeds the maximum JSON depth of ${maxDepth}"
      >> throw_if (ltb 1024 (count_items xs)) "${path}: must contain at most ${maxEntries} entries"
      >> check_items (suc depth) xs
  check_json depth (obj fs) =
      throw_if (ltb 16 depth) "${path}: exceeds the maximum JSON depth of ${maxDepth}"
      >> throw_if (ltb 1024 (count_fields fs)) "${path}: must contain at most ${maxEntries} fields"
      >> check_fields (suc depth) fs
  check_json depth v =
      throw_if (ltb 16 depth) "${path}: exceeds the maximum JSON depth of ${maxDepth}"

  pub check_items : ℕ → Items → Result (Unit {0})
  check_items depth nil = ok tt
  check_items depth (cons x xs) = check_json depth x >> check_items depth xs

  pub check_fields : ℕ → Fields → Result (Unit {0})
  check_fields depth end = ok tt
  check_fields depth (field k v fs) =
      throw_if (is_empty k || ltb 200 (length k)) "${path}.${key}: has an invalid key"
      >> check_json depth v
      >> check_fields depth fs
