-- ===== src/Wire/Json.antt =====
-- The values that the guards of src/shared/wire.ts read: what `JSON.parse` returns. A property that
-- is missing is `undefined`; the names in an object are distinct.
use vidyut.Prelude.{
  String, Bool, true, false, Option, none, some, List, [], ◌∷◌, str_eq, if◌then◌else◌,
}
use vidyut.Wire.Number.{Number}

mutual
  pub data Json : Type 0 where
    null : Json
    bool : Bool → Json
    num : Number → Json
    str : String → Json
    arr : Items → Json
    obj : Fields → Json

  pub data Items : Type 0 where
    nil : Items
    cons : Json → Items → Items

  pub data Fields : Type 0 where
    end : Fields
    field : String → Json → Fields → Fields

abbrev pub items : Items → List Json
items nil = []
items (cons j js) = j ∷ items js

abbrev pub to_items : List Json → Items
to_items [] = nil
to_items (j ∷ js) = cons j (to_items js)

abbrev pub entries : Fields → List (String × Json)
entries end = []
entries (field k j fs) = (k, j) ∷ entries fs

-- `value[key]` of an object
abbrev pub get : String → Fields → Option Json
get key end = none
get key (field k j fs) = if str_eq k key then some j else get key fs

-- `value && typeof value === "object"`: an array is an object, with none of the names asked for.
abbrev pub as_object : Json → Option Fields
as_object (obj fs) = some fs
as_object (arr js) = some end
as_object _ = none

abbrev pub as_array : Option Json → Option (List Json)
as_array (some (arr js)) = some (items js)
as_array _ = none

abbrev pub as_string : Option Json → Option String
as_string (some (str s)) = some s
as_string _ = none

abbrev pub as_bool : Option Json → Option Bool
as_bool (some (bool b)) = some b
as_bool _ = none

abbrev pub as_number : Option Json → Option Number
as_number (some (num n)) = some n
as_number _ = none

abbrev pub is_some {ℓ} : {A : Type ℓ} → Option A → Bool
is_some none = false
is_some (some a) = true

-- `typeof x === "string" && p(x)`, and so on for the other types.
abbrev pub test {ℓ} : {A : Type ℓ} → (A → Bool) → Option A → Bool
test p none = false
test p (some a) = p a

-- `x === undefined || p(x)`
abbrev pub optional : (Option Json → Bool) → Option Json → Bool
optional p none = true
optional p (some j) = p (some j)
