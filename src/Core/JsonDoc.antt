-- ===== src/Core/JsonDoc.antt =====
-- `JsonDoc` (src/core/json-doc.h, json-doc.cc) as its callers see it. The JSON library behind it
-- is not part of this model: a parsed document is what that library answers about it.
use residue.Prelude.{ℕ, Bool, true, false, List, [], if◌then◌else◌, Text, codes}

-- gason's `JsonParseStatus`.
pub data Status : Type 0 where
  parse_ok bad_number allocation_failure bad_string mismatch_bracket : Status
  stack_overflow unexpected_character unquoted_key other_failure : Status

-- What the library finds under a key: a number as `unsigned int` and as `unsigned long`, a string,
-- a Boolean, or anything else, a missing key included.
pub data Leaf : Type 0 where
  number : ℕ → ℕ → Leaf
  string : Text → Leaf
  boolean : Bool → Leaf
  other : Leaf

-- `items` are the texts to which `dump` prints the elements of a root that is an array.
pub record JsonDoc : Type 0 where
  pub status : Status
  pub is_array : Bool
  pub lookup : Text → Leaf
  pub items : List Text

abbrev pub is_valid : JsonDoc → Bool
is_valid d = elim d.status [ parse_ok ↦ true | _ ↦ false ]

unfoldable pub error_text : JsonDoc → Text
error_text d = elim d.status [
  | parse_ok ↦ []
  | bad_number ↦ codes "Bad number"
  | allocation_failure ↦ codes "Failed to allocate memory"
  | bad_string ↦ codes "Bad string"
  | mismatch_bracket ↦ codes "Unclosed bracket"
  | stack_overflow ↦ codes "Too much nesting"
  | unexpected_character ↦ codes "Unexpected character"
  | unquoted_key ↦ codes "Unquoted keys are not allowed"
  | other_failure ↦ codes "Unknown error - [hint: single quote keys are not allowed]"
]

abbrev pub as_bool : Leaf → Bool → Bool
as_bool (boolean b) d = b
as_bool _ d = d

abbrev pub as_string : Leaf → Text → Text
as_string (string s) d = s
as_string _ d = d

abbrev pub as_unsigned : Leaf → ℕ → ℕ
as_unsigned (number u l) d = u
as_unsigned _ d = d

abbrev pub as_unsigned_long : Leaf → ℕ → ℕ
as_unsigned_long (number u l) d = l
as_unsigned_long _ d = d

unfoldable pub get_bool : JsonDoc → Text → Bool → Bool
get_bool d key default_val = if d.is_array then default_val else as_bool (d.lookup key) default_val

unfoldable pub get_string : JsonDoc → Text → Text → Text
get_string d key default_val =
    if d.is_array then default_val else as_string (d.lookup key) default_val

unfoldable pub get_unsigned : JsonDoc → Text → ℕ → ℕ
get_unsigned d key default_val =
    if d.is_array then default_val else as_unsigned (d.lookup key) default_val

unfoldable pub get_unsigned_long : JsonDoc → Text → ℕ → ℕ
get_unsigned_long d key default_val =
    if d.is_array then default_val else as_unsigned_long (d.lookup key) default_val
