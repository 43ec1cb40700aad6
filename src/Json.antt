-- ===== src/Json.antt =====
-- Values of type `unknown` that reach the services: what `JSON.parse` or a Prisma JSON column gives.
-- An array or object has a list type of its own, with a function to `List`.
use lydia_bg_back.Prelude.{ℕ, Text, List, [], ◌∷◌, Bool, Option, none, some, lookup}

-- A double: the finite ones by their bit pattern, on which the program computes nothing.
pub data Number : Type 0 where
  nan infinity : Number
  finite : ℕ → Number

mutual
  pub data Value : Type 0 where
    null : Value
    bool : Bool → Value
    num : Number → Value
    str : Text → Value
    arr : Items → Value
    obj : Fields → Value

  pub data Items : Type 0 where
    nil : Items
    cons : Value → Items → Items

  pub data Fields : Type 0 where
    end : Fields
    prop : Text → Value → Fields → Fields

abbrev pub items : Items → List Value
items nil = []
items (cons v vs) = v ∷ items vs

abbrev pub fields : Fields → List (Text × Value)
fields end = []
fields (prop k v r) = (k, v) ∷ fields r

abbrev pub of_items : List Value → Items
of_items [] = nil
of_items (v ∷ vs) = cons v (of_items vs)

-- `v[k]` of an object; `none` is `undefined`.
abbrev pub get_field : Text → Fields → Option Value
get_field k r = lookup k (fields r)

-- `typeof v === 'string' ? v : none`
abbrev pub as_text : Option Value → Option Text
as_text (some (str s)) = some s
as_text _ = none

-- `Array.isArray(v) ? v : none`
abbrev pub as_array : Option Value → Option (List Value)
as_array (some (arr vs)) = some (items vs)
as_array _ = none
