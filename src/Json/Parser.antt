-- ===== src/Json/Parser.antt =====
-- Class JsonParser of src/json/json_parser.cpp. The state m_start, m_current, m_end is the list of
-- bytes between m_current and m_end; an exception keeps the bytes unread when it was thrown, which
-- with the whole input give the position that ThrowError reports.
use selfserv.Base.{
  ℕ, Bool, true, false, ◌||◌, Option, none, some, [], ◌∷◌, ltb, leb, ◌==◌, if◌then◌else◌, Bytes,
  is_space,
}

-- The texts given to ThrowError; `expected` is the one that ExpectChar composes.
pub data Message : Type 0 where
  empty_json trailing_characters unexpected_character invalid_null invalid_bool : Message
  trailing_comma_array expected_comma_array key_expected trailing_comma_object : Message
  expected_comma_object unexpected_end unterminated_escape invalid_escape : Message
  control_character invalid_number invalid_fraction invalid_exponent : Message
  expected : ℕ → ℕ → Message

-- `failed` is an exception; `out_of_fuel` has no counterpart in the program.
pub data Result {ℓ} (A : Type ℓ) : Type ℓ where
  ok : A → Result A
  failed : Message → Bytes → Result A
  out_of_fuel : Result A

abbrev pub Parser {ℓ} : Type ℓ → Type ℓ
Parser A = Bytes → Result (A × Bytes)

abbrev pub bind {ℓ κ} : {A : Type ℓ} {B : Type κ} → Result A → (A → Result B) → Result B
bind (ok a) f = f a
bind (failed m unread) f = failed m unread
bind out_of_fuel f = out_of_fuel

abbrev pub pure {ℓ} : {A : Type ℓ} → A → Parser A
pure a s = ok (a, s)

-- ThrowError
abbrev pub throw {ℓ} : {A : Type ℓ} → Message → Parser A
throw m s = failed m s

infixl 5 ◌>>=◌ ◌>>◌
abbrev pub ◌>>=◌ {ℓ κ} : {A : Type ℓ} {B : Type κ} → Parser A → (A → Parser B) → Parser B
◌>>=◌ p f s = bind (p s) λ (a, rest). f a rest

abbrev pub ◌>>◌ {ℓ κ} : {A : Type ℓ} {B : Type κ} → Parser A → Parser B → Parser B
p >> q = p >>= λ _. q

-- SkipWhitespace
unfoldable pub skip_space : Bytes → Bytes
skip_space [] = []
skip_space (c ∷ cs) = if is_space c then skip_space cs else c ∷ cs

abbrev pub skip_whitespace : Parser (Unit {0})
skip_whitespace s = ok (tt, skip_space s)

-- PeekChar
unfoldable pub peek_char : Parser ℕ
peek_char [] = failed unexpected_end []
peek_char (c ∷ cs) = ok (c, c ∷ cs)

-- NextChar
unfoldable pub next_char : Parser ℕ
next_char [] = failed unexpected_end []
next_char (c ∷ cs) = ok (c, cs)

-- ExpectChar
unfoldable pub expect_char : ℕ → Parser (Unit {0})
unfolding next_char
expect_char e = next_char >>= λ c. if c == e then pure tt else throw (expected e c)

-- The test `c < 32` on a `char`, which is signed: bytes from 128 on are negative.
unfoldable pub is_control : ℕ → Bool
is_control c = ltb c 32 || leb 128 c

-- The switch of ParseStringLiteral on the character behind a backslash.
unfoldable pub unescape : ℕ → Option ℕ
unescape c =
    if c == b'"'
    then some b'"'
    else if c == b'\\'
    then some b'\\'
    else if c == b'/'
    then some b'/'
    else if c == b'b'
    then some 8
    else if c == b'f'
    then some 12
    else if c == b'n'
    then some 10
    else if c == b'r'
    then some 13
    else if c == b't'
    then some 9
    else none

-- result += c
abbrev pub prepend : ℕ → Result (Bytes × Bytes) → Result (Bytes × Bytes)
prepend c r = bind r λ (text, rest). ok (c ∷ text, rest)

abbrev pub unescaped : Option ℕ → Bytes → Result (Bytes × Bytes) → Result (Bytes × Bytes)
unescaped none cs later = failed invalid_escape cs
unescaped (some b) cs later = prepend b later

-- The loop of ParseStringLiteral and the closing quote; the flag says that a backslash was read.
unfoldable pub literal_chars : Bool → Parser Bytes
unfolding is_control unescape
literal_chars true [] = failed unterminated_escape []
literal_chars false [] = failed unexpected_end []
literal_chars true (c ∷ cs) = let later = literal_chars false cs in unescaped (unescape c) cs later
literal_chars false (c ∷ cs) =
    let escaped = literal_chars true cs in
    let plain = literal_chars false cs in
    if c == b'"'
    then ok ([], cs)
    else if c == b'\\'
    then escaped
    else if is_control c
    then failed control_character cs
    else prepend c plain

-- ParseStringLiteral
unfoldable pub parse_string_literal : Parser Bytes
unfolding expect_char literal_chars
parse_string_literal = expect_char b'"' >> literal_chars false
