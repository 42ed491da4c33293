-- ===== src/Json/Print.antt =====
-- The ToString methods of src/json/json_parser.cpp.
use selfserv.Base.{ℕ, Bool, true, false, [], ◌∷◌, ◌++◌, ◌==◌, if◌then◌else◌, Bytes, codes}
use selfserv.Json.Value.{
  JsonValue, Values, Members, null, bool, number, string, array, object, no_values, value,
  no_members, member,
}
use selfserv.Json.Floats.{Floats}

-- What JsonString::ToString writes for one byte.
unfoldable pub escape_byte : ℕ → Bytes
escape_byte c =
    if c == b'"'
    then b'\\' ∷ b'"' ∷ []
    else if c == b'\\'
    then b'\\' ∷ b'\\' ∷ []
    else if c == b'\n'
    then b'\\' ∷ b'n' ∷ []
    else if c == b'\r'
    then b'\\' ∷ b'r' ∷ []
    else if c == b'\t'
    then b'\\' ∷ b't' ∷ []
    else c ∷ []

unfoldable pub escape : Bytes → Bytes
escape [] = []
escape (c ∷ cs) = escape_byte c ++ escape cs

-- JsonString::ToString
unfoldable pub string_text : Bytes → Bytes
unfolding escape escape_byte
string_text s = b'"' ∷ (escape s ++ b'"' ∷ [])

-- The separator that the loops write before each element but the first.
abbrev pub separator : Bool → Bytes
separator first = if first then [] else b',' ∷ b' ' ∷ []

module _ {D : Type 0} (F : Floats D) where
  open F use {show}

  unfoldable mutual
    unfolding string_text

    pub to_string : JsonValue D → Bytes
    to_string null = codes "null"
    to_string (bool b) = if b then codes "true" else codes "false"
    to_string (number d) = show d
    to_string (string s) = string_text s
    to_string (array vs) = b'[' ∷ (values_text true vs ++ b']' ∷ [])
    to_string (object ms) = b'{' ∷ (members_text true ms ++ b'}' ∷ [])

    pub values_text : Bool → Values D → Bytes
    values_text first no_values = []
    values_text first (value v vs) = separator first ++ (to_string v ++ values_text false vs)

    -- The key is written as it is, with no escapes.
    pub members_text : Bool → Members D → Bytes
    members_text first no_members = []
    members_text first (member k v ms) =
        separator first
        ++ (b'"' ∷ (k ++ b'"' ∷ b':' ∷ b' ' ∷ (to_string v ++ members_text false ms)))
