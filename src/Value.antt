-- ===== src/Value.antt =====
-- Stored values (`unknown` in the source): what JSON carries, and the numbers of JavaScript as far
-- as the code looks at them.
-- A number is compared with whole numbers and asked `Number.isInteger`, so one that is not whole is
-- kept as the whole number below it. Its digits behind the point are not modelled.
use jubs.Common.{ℕ, zero, suc, Bool, true, false, List, [], ◌∷◌, ltb, leb, if◌then◌else◌}
use jubs.Text.{Text, ◌==◌}

-- `negsuc n` is -(n + 1).
pub data ℤ : Type 0 where
  pos : ℕ → ℤ
  negsuc : ℕ → ℤ

pub data Number : Type 0 where
  whole : ℤ → Number
  -- strictly between the whole number and the next one
  fraction : ℤ → Number
  infinity minus_infinity not_a_number : Number

-- `Number.isInteger(x)`
abbrev pub is_integer : Number → Bool
is_integer (whole n) = true
is_integer _ = false

-- `Number.isFinite(x)`
abbrev pub is_finite : Number → Bool
is_finite (whole n) = true
is_finite (fraction n) = true
is_finite _ = false

-- `x <= n` for a whole number `n` of 0 or more
abbrev pub at_most : Number → ℕ → Bool
at_most (whole (pos m)) n = leb m n
at_most (whole (negsuc m)) n = true
at_most (fraction (pos m)) n = ltb m n
at_most (fraction (negsuc m)) n = true
at_most infinity n = false
at_most minus_infinity n = true
at_most not_a_number n = false

-- `x < n`
abbrev pub below : Number → ℕ → Bool
below (whole (pos m)) n = ltb m n
below (fraction (pos m)) n = ltb m n
below x n = at_most x n

-- `x > 0`
abbrev pub is_positive : Number → Bool
is_positive (whole (pos zero)) = false
is_positive (whole (pos (suc n))) = true
is_positive (fraction (pos n)) = true
is_positive infinity = true
is_positive _ = false

mutual
  pub data Value : Type 0 where
    undefined null : Value
    bool : Bool → Value
    num : Number → Value
    str : Text → Value
    arr : Items → Value
    obj : Fields → Value

  pub data Items : Type 0 where
    nil : Items
    cons : Value → Items → Items

  pub data Fields : Type 0 where
    end : Fields
    field : Text → Value → Fields → Fields

abbrev pub items : Items → List Value
items nil = []
items (cons v vs) = v ∷ items vs

-- `Object.entries(record)`, in the order of the keys; keys that are numerals keep their place.
abbrev pub entries : Fields → List (Text × Value)
entries end = []
entries (field k v fs) = (k, v) ∷ entries fs

-- `record[key]`, `undefined` for a key that is not there
unfoldable pub read_field : Text → Fields → Value
read_field k end = undefined
read_field k (field j v fs) = if j == k then v else read_field k fs

-- `Reflect.get(stored, key)` of something `typeof` calls an object: an array has none of the names
-- that the code asks for.
unfoldable pub get : Text → Value → Value
unfolding read_field
get k (obj fs) = read_field k fs
get k _ = undefined

-- `typeof value !== "object" || value === null`
abbrev pub is_object : Value → Bool
is_object (obj fs) = true
is_object (arr vs) = true
is_object _ = false

-- `typeof value === "object" && value !== null && !Array.isArray(value)`
abbrev pub is_record : Value → Bool
is_record (obj fs) = true
is_record _ = false

abbrev pub is_undefined : Value → Bool
is_undefined undefined = true
is_undefined _ = false

-- `JSON.parse(JSON.stringify(value))`, with `undefined` for what has no JSON text: a field that
-- holds `undefined` goes, an element that is `undefined` becomes `null`, and so does a number that
-- is not finite.
unfoldable mutual
  pub json_copy : Value → Value
  json_copy (num n) = if is_finite n then num n else null
  json_copy (arr vs) = arr (json_items vs)
  json_copy (obj fs) = obj (json_fields fs)
  json_copy v = v

  pub json_items : Items → Items
  json_items nil = nil
  json_items (cons undefined vs) = cons null (json_items vs)
  json_items (cons v vs) = cons (json_copy v) (json_items vs)

  pub json_fields : Fields → Fields
  json_fields end = end
  json_fields (field k undefined fs) = json_fields fs
  json_fields (field k v fs) = field k (json_copy v) (json_fields fs)
