-- ===== src/Api/Values.antt =====
-- JavaScript values as the client reads and sends them: what `res.json()` answers, and what it passes
-- to `JSON.stringify`. A number is in thousandths.
use kiyomi.Base.{
  Bool, true, false, not, ◌||◌, String, Option, none, some, List, [], ◌∷◌, is_blank, ◌==◌, ℕ_eq,
  String_eq, if◌then◌else◌,
}
use kiyomi.Base.Int.{ℤ, pos, negsuc}
use kiyomi.Api.Numbers.{number_text, ◌+text◌}

mutual
  pub data Value : Type 0 where
    undefined null : Value
    flag : Bool → Value
    number : ℤ → Value
    string : String → Value
    array : Values → Value
    object : Fields → Value

  pub data Values : Type 0 where
    empty : Values
    item : Value → Values → Values

  pub data Fields : Type 0 where
    nil : Fields
    field : String → Value → Fields → Fields

abbrev pub fields_of : List (String × Value) → Fields
fields_of [] = nil
fields_of ((k, v) ∷ fields) = field k v (fields_of fields)

-- An object literal.
abbrev pub object_of : List (String × Value) → Value
object_of fields = object (fields_of fields)

abbrev pub strings : List String → Values
strings [] = empty
strings (s ∷ texts) = item (string s) (strings texts)

-- `obj[k]` and `k in obj`, for the object's own fields.
unfoldable pub field_of : String → Fields → Value
field_of k nil = undefined
field_of k (field j v fields) = if j == k then v else field_of k fields

unfoldable pub has_field : String → Fields → Bool
has_field k nil = false
has_field k (field j v fields) = j == k || has_field k fields

-- `obj[k] = v`
unfoldable pub set_field : String → Value → Fields → Fields
set_field k v nil = field k v nil
set_field k v (field j w fields) =
    if j == k then field j v fields else field j w (set_field k v fields)

-- `value.k`, where the value is neither `null` nor `undefined`.
abbrev pub get : String → Value → Value
get k (object fields) = field_of k fields
get k v = undefined

-- `value == null`, and `value === undefined`.
abbrev pub is_nullish : Value → Bool
is_nullish undefined = true
is_nullish null = true
is_nullish v = false

abbrev pub is_undefined : Value → Bool
is_undefined undefined = true
is_undefined v = false

-- `a ?? b`
infixr 21 ◌or_else◌
abbrev pub ◌or_else◌ : Value → Value → Value
undefined or_else b = b
null or_else b = b
a or_else b = a

-- `Boolean(value)`
unfoldable pub is_truthy : Value → Bool
is_truthy undefined = false
is_truthy null = false
is_truthy (flag b) = b
is_truthy (number (pos n)) = not (n == 0)
is_truthy (number (negsuc n)) = true
is_truthy (string s) = not (is_blank s)
is_truthy (array items) = true
is_truthy (object fields) = true

-- `a || b`
abbrev pub first_truthy : Value → Value → Value
first_truthy a b = if is_truthy a then a else b

-- A text that may be missing, as a value.
abbrev pub optional : Option String → Value
optional none = undefined
optional (some s) = string s

unfoldable mutual
  -- `String(value)`
  pub to_text : Value → String
  to_text undefined = "undefined"
  to_text null = "null"
  to_text (flag true) = "true"
  to_text (flag false) = "false"
  to_text (number n) = number_text n
  to_text (string s) = s
  to_text (array items) = join items
  to_text (object fields) = "[object Object]"

  -- `value.join()`
  pub join : Values → String
  join empty = ""
  join (item v empty) = if is_nullish v then "" else to_text v
  join (item v (item w items)) =
      (if is_nullish v then "" else to_text v) +text "," +text join (item w items)
