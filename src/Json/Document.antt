-- ===== src/Json/Document.antt =====
-- ParseValue, ParseArray, ParseObject and Parse of src/json/json_parser.cpp. The values that the
-- program frees before it rethrows are values here, and need no clean-up.
use selfserv.Base.{
  ℕ, zero, suc, ◌+◌, ◌-◌, ◌*◌, true, false, not, ◌||◌, [], ◌∷◌, ◌==◌, if◌then◌else◌, Bytes, codes,
  is_digit, starts_with, length, drop,
}
use selfserv.Json.Value.{
  JsonValue, Values, Members, null, bool, number, string, array, object, no_values, no_members,
  add_value, set_value,
}
use selfserv.Json.Floats.{Floats}
use selfserv.Json.Parser.{
  Result, Parser, ok, failed, out_of_fuel, bind, ◌>>=◌, ◌>>◌, pure, throw, peek_char, next_char,
  expect_char, skip_space, skip_whitespace, parse_string_literal, empty_json, trailing_characters,
  unexpected_character, invalid_null, invalid_bool, trailing_comma_array, expected_comma_array,
  key_expected, trailing_comma_object, expected_comma_object,
}
use selfserv.Json.Number.{number_text, parse_number_literal}

-- A round of ParseObject's loop behind the key: the colon.
unfoldable pub colon : Bytes → Parser Bytes
unfolding expect_char
colon key = do skip_whitespace; expect_char b':'; pure key

-- A round of ParseObject's loop from the key, which must be a string, to the colon.
unfoldable pub key_part : Parser Bytes
unfolding peek_char parse_string_literal colon
key_part = do
  c ← peek_char
  if not (c == b'"') then throw key_expected else (parse_string_literal >>= colon)

unfoldable pub parse_key : Parser Bytes
unfolding key_part
parse_key = skip_whitespace >> key_part

module _ {D : Type 0} where
  -- ParseNull
  unfoldable pub parse_null : Parser (JsonValue D)
  unfolding starts_with
  parse_null s =
      if not (starts_with (codes "null") s) then failed invalid_null s else ok (null, drop 4 s)

  -- ParseBool
  unfoldable pub parse_bool : Parser (JsonValue D)
  unfolding starts_with
  parse_bool s =
      if starts_with (codes "true") s
      then ok (bool true, drop 4 s)
      else if starts_with (codes "false") s
      then ok (bool false, drop 5 s)
      else failed invalid_bool s

  -- ParseString
  unfoldable pub parse_string : Parser (JsonValue D)
  parse_string = parse_string_literal >>= λ s. pure (string s)

  -- The head of ParseArray behind `[`, before its loop `items`.
  unfoldable pub array_body : Parser (Values D) → Parser (JsonValue D)
  unfolding peek_char next_char
  array_body items = do
    c ← peek_char
    if c == b']' then next_char >> pure (array no_values) else (items >>= λ vs. pure (array vs))

  unfoldable pub parse_array : Parser (Values D) → Parser (JsonValue D)
  unfolding expect_char array_body
  parse_array items = do expect_char b'['; skip_whitespace; array_body items

  -- Behind a comma of an array.
  unfoldable pub another_item : Parser (Values D) → Parser (Values D)
  unfolding peek_char
  another_item again = do c ← peek_char; if c == b']' then throw trailing_comma_array else again

  -- Behind a value of an array, with the array so far and the next round of the loop.
  unfoldable pub after_item : (Values D → Parser (Values D)) → Values D → Parser (Values D)
  unfolding next_char another_item
  after_item again vs = do
    c ← next_char
    if c == b']'
        then pure vs
        else if c == b','
        then skip_whitespace >> another_item (again vs)
        else throw expected_comma_array

  -- The head of ParseObject behind `{`, before its loop `members`.
  unfoldable pub object_body : Parser (Members D) → Parser (JsonValue D)
  unfolding peek_char next_char
  object_body members = do
    c ← peek_char
    if c == b'}'
        then next_char >> pure (object no_members)
        else (members >>= λ ms. pure (object ms))

  unfoldable pub parse_object : Parser (Members D) → Parser (JsonValue D)
  unfolding expect_char object_body
  parse_object members = do expect_char b'{'; skip_whitespace; object_body members

  -- Behind a comma of an object.
  unfoldable pub another_member : Parser (Members D) → Parser (Members D)
  unfolding peek_char
  another_member again = do c ← peek_char; if c == b'}' then throw trailing_comma_object else again

  -- Behind a value of an object, with the object so far and the next round of the loop.
  unfoldable pub after_member : (Members D → Parser (Members D)) → Members D → Parser (Members D)
  unfolding next_char another_member
  after_member again ms = do
    c ← next_char
    if c == b'}'
        then pure ms
        else if c == b','
        then skip_whitespace >> another_member (again ms)
        else throw expected_comma_object

module _ {D : Type 0} (F : Floats D) where
  -- ParseNumber
  unfoldable pub parse_number : Parser (JsonValue D)
  parse_number = parse_number_literal F >>= λ d. pure (number d)

  -- The switch of ParseValue, on the parsers for arrays and objects.
  unfoldable pub choose : Parser (JsonValue D) → Parser (JsonValue D) → ℕ → Parser (JsonValue D)
  choose arrays objects c s =
      if c == b'n'
      then parse_null s
      else if c == b't' || c == b'f'
      then parse_bool s
      else if c == b'"'
      then parse_string s
      else if c == b'['
      then arrays s
      else if c == b'{'
      then objects s
      else if c == b'-' || is_digit c
      then parse_number s
      else failed unexpected_character s

  -- Each call of ParseValue and each round of a loop costs a unit of fuel.
  unfoldable mutual
    unfolding choose parse_array after_item parse_object parse_key after_member parse_null
        parse_bool parse_string parse_string_literal parse_number parse_number_literal number_text

    pub parse_value : ℕ → Parser (JsonValue D)
    parse_value zero s = out_of_fuel
    parse_value (suc f) s = bind (peek_char (skip_space s)) λ (c, t).
        choose (parse_array (parse_items f no_values)) (parse_object (parse_members f no_members)) c
          t

    pub parse_items : ℕ → Values D → Parser (Values D)
    parse_items zero vs s = out_of_fuel
    parse_items (suc f) vs s =
        bind (parse_value f s) λ (v, t). after_item (parse_items f) (add_value vs v) (skip_space t)

    pub parse_members : ℕ → Members D → Parser (Members D)
    parse_members zero ms s = out_of_fuel
    parse_members (suc f) ms s = bind (parse_key s) λ (k, t).
        bind (parse_value f t)
          λ (v, u). after_member (parse_members f) (set_value k v ms) (skip_space u)

  -- The end of Parse.
  unfoldable pub finish : JsonValue D → Bytes → Result (JsonValue D)
  finish v [] = ok v
  finish v (c ∷ cs) = failed trailing_characters (c ∷ cs)

  unfoldable pub parse_document : ℕ → Bytes → Result (JsonValue D)
  unfolding finish
  parse_document fuel [] = failed empty_json []
  parse_document fuel (c ∷ cs) =
      bind (parse_value fuel (c ∷ cs)) λ (v, rest). finish v (skip_space rest)

  -- Parse
  unfoldable pub parse : Bytes → Result (JsonValue D)
  unfolding parse_document parse_value skip_space
  parse json = parse_document (2 * length json + 1) (skip_space json)

-- The position that ThrowError reports: m_current - m_start.
unfoldable pub error_position : Bytes → Bytes → ℕ
error_position json unread = length json - length unread
