-- ===== src/Json.antt =====
-- What src/ipc and src/core/config.c ask of the JSON library json-c, as a parameter. A NULL value is a value of the
-- kind `null_kind`, as json-c has it; a lack of memory is left out.
pub mod Built
use sweet_dawn.Base.{ℕ, ℤ, Bool, Option, List, String}

-- `enum json_type`
pub data Kind : Type 0 where
  null_kind boolean_kind double_kind int_kind object_kind array_kind string_kind : Kind

pub record JsonLib : Type 1 where
  pub Value : Type 0
  -- json_object_get_type()
  pub kind : Value → Kind
  -- json_tokener_parse_ex() with the strict flag: the value, whether there was no error, and
  -- json_tokener_get_parse_end().
  pub tokener_parse : List ℕ → Option Value × Bool × ℕ
  -- json_object_object_get_ex()
  pub get_ex : Value → String → Option Value
  -- json_object_get_string() of a text.
  pub get_string : Value → String
  -- The same as bytes, as many as json_object_get_string_len() says, which may hold a 0.
  pub get_bytes : Value → List ℕ
  -- json_object_get_string() of any value; none where it is NULL.
  pub text_of : Value → Option String
  -- json_object_get_int() of an integer; none where it is negative.
  pub get_int : Value → Option ℕ
  -- json_object_from_file()
  pub from_file : String → Option Value
  -- json_object_array_get_idx() at each index.
  pub array : Value → List Value
  -- json_object_to_json_string_ext(), up to its final NUL.
  pub to_json_string : Value → Option (List ℕ)
  -- json_object_new_object(), and json_object_object_add() of each member.
  pub new_object : List (String × Value) → Value
  pub new_string : String → Value
  pub new_boolean : Bool → Value
  pub new_null : Value
  -- json_object_new_int() of a natural, and json_object_new_int64().
  pub new_int : ℕ → Value
  pub new_int64 : ℤ → Value
  -- json_object_new_double_s(), by the text that is written for it.
  pub new_double_s : String → Value
  -- json_object_new_array(), and json_object_array_add() of each value.
  pub new_array : List Value → Value

abbrev pub is_object : Kind → Bool
is_object object_kind = Bool.true
is_object _ = Bool.false

abbrev pub is_array : Kind → Bool
is_array array_kind = Bool.true
is_array _ = Bool.false

abbrev pub is_string : Kind → Bool
is_string string_kind = Bool.true
is_string _ = Bool.false

abbrev pub is_int : Kind → Bool
is_int int_kind = Bool.true
is_int _ = Bool.false

abbrev pub is_null : Kind → Bool
is_null null_kind = Bool.true
is_null _ = Bool.false
