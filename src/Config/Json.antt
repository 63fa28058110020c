-- ===== src/Config/Json.antt =====
-- The parsed JSON document, after `json::Value` of include/JsonParser.h: a library that the reader of
-- src/cumes/config/json_reader.cpp calls. An object is its entries, in the order in which the loop
-- over `as_object` meets them. The contents of a typed array are left out.
use Prim.Native.String.{String}
use text.Mathlib.Text as Text
use cu_mes.Base.{Bool, Option, none, some, List, [], ◌∷◌, ℤ, if◌then◌else◌}
use cu_mes.Config.Report.{
  ValueCategory, null, number_int, number_float, boolean, string, array, object,
  typed_array_complex_double, typed_array_complex_float,
}

mutual
  pub data Value (T : Type 0) : Type 0 where
    null_value double_array float_array : Value T
    int_value : ℤ → Value T
    float_value : T → Value T
    boolean_value : Bool → Value T
    string_value : String → Value T
    array_value : Items T → Value T
    object_value : Fields T → Value T

  pub data Items (T : Type 0) : Type 0 where
    no_items : Items T
    item : Value T → Items T → Items T

  pub data Fields (T : Type 0) : Type 0 where
    no_fields : Fields T
    entry : String → Value T → Fields T → Fields T

module _ {T : Type 0} where
  unfoldable pub value_category : Value T → ValueCategory
  value_category null_value = null
  value_category double_array = typed_array_complex_double
  value_category float_array = typed_array_complex_float
  value_category (int_value i) = number_int
  value_category (float_value x) = number_float
  value_category (boolean_value b) = boolean
  value_category (string_value t) = string
  value_category (array_value xs) = array
  value_category (object_value fs) = object

  abbrev pub items_of : Items T → List (Value T)
  items_of no_items = []
  items_of (item v rest) = v ∷ items_of rest

  abbrev pub keys_of : Fields T → List String
  keys_of no_fields = []
  keys_of (entry k v rest) = k ∷ keys_of rest

  unfoldable pub find_field : String → Fields T → Option (Value T)
  find_field k no_fields = none
  find_field k (entry j v rest) = if Text.◌==◌ j k then some v else find_field k rest

  -- `contains(key)` and `at(key)` in one: nothing where the value is no object.
  unfoldable pub find : String → Value T → Option (Value T)
  unfolding find_field
  find k (object_value fs) = find_field k fs
  find k other = none

  unfoldable pub as_int : Value T → Option ℤ
  as_int (int_value i) = some i
  as_int other = none

  -- `is_number()` and `as_number<double>()`; `of_int64` is the conversion of a 64-bit integer.
  unfoldable pub as_double : (ℤ → T) → Value T → Option T
  as_double of_int64 (int_value i) = some (of_int64 i)
  as_double of_int64 (float_value x) = some x
  as_double of_int64 other = none

  unfoldable pub as_boolean : Value T → Option Bool
  as_boolean (boolean_value b) = some b
  as_boolean other = none

  unfoldable pub as_string : Value T → Option String
  as_string (string_value t) = some t
  as_string other = none

  unfoldable pub as_array : Value T → Option (List (Value T))
  as_array (array_value xs) = some (items_of xs)
  as_array other = none

  unfoldable pub as_object : Value T → Option (List String)
  as_object (object_value fs) = some (keys_of fs)
  as_object other = none
