-- ===== src/Json/Number.antt =====
-- ParseNumberLiteral of src/json/json_parser.cpp, part by part. Each part returns the bytes that
-- it moves m_current over; together they are the text handed to strtod.
use selfserv.Base.{
  ℕ, Bool, true, not, ◌||◌, [], ◌∷◌, ◌++◌, ◌==◌, if◌then◌else◌, Bytes, is_digit, length,
}
use selfserv.Json.Floats.{Floats}
use selfserv.Json.Parser.{
  Parser, ok, failed, ◌>>=◌, pure, throw, invalid_number, invalid_fraction, invalid_exponent,
  unexpected_end,
}

-- while (!IsAtEnd() && std::isdigit(PeekChar())) NextChar();
unfoldable pub digits : Bytes → Bytes × Bytes
digits [] = ([], [])
digits (c ∷ cs) = let (ds, rest) = digits cs in if is_digit c then (c ∷ ds, rest) else ([], c ∷ cs)

abbrev pub pure_digits : Parser Bytes
pure_digits s = ok (digits s)

-- IsAtEnd() || !std::isdigit(PeekChar())
unfoldable pub no_digit : Bytes → Bool
no_digit [] = true
no_digit (c ∷ cs) = not (is_digit c)

-- if (no digit) ThrowError(...); then the loop over digits
abbrev pub some_digits : (Parser Bytes) → Parser Bytes
some_digits error s = if no_digit s then error s else pure_digits s

-- The optional minus sign.
unfoldable pub minus_part : Parser Bytes
minus_part [] = failed unexpected_end []
minus_part (c ∷ cs) = if c == b'-' then ok (c ∷ [], cs) else ok ([], c ∷ cs)

-- The integer part: one zero, or digits.
unfoldable pub integer_part : Parser Bytes
unfolding digits
integer_part [] = failed unexpected_end []
integer_part (c ∷ cs) =
    if c == b'0'
    then ok (c ∷ [], cs)
    else if is_digit c
    then pure_digits (c ∷ cs)
    else failed invalid_number (c ∷ cs)

-- The optional fraction.
unfoldable pub fraction_part : Parser Bytes
unfolding digits no_digit
fraction_part [] = ok ([], [])
fraction_part (c ∷ cs) =
    if c == b'.'
    then (some_digits (throw invalid_fraction) >>= λ ds. pure (c ∷ ds)) cs
    else ok ([], c ∷ cs)

-- The optional sign of an exponent.
unfoldable pub sign_part : Parser Bytes
sign_part [] = ok ([], [])
sign_part (c ∷ cs) = if c == b'+' || c == b'-' then ok (c ∷ [], cs) else ok ([], c ∷ cs)

-- The optional exponent.
unfoldable pub exponent_part : Parser Bytes
unfolding digits no_digit sign_part
exponent_part [] = ok ([], [])
exponent_part (c ∷ cs) =
    if c == b'e' || c == b'E'
    then (do sign ← sign_part; ds ← some_digits (throw invalid_exponent); pure (c ∷ (sign ++ ds)))
        cs
    else ok ([], c ∷ cs)

-- The text from `start` to m_current.
unfoldable pub number_text : Parser Bytes
unfolding minus_part integer_part fraction_part exponent_part
number_text = do
  minus ← minus_part
  whole ← integer_part
  fraction ← fraction_part
  exponent ← exponent_part
  pure (minus ++ (whole ++ (fraction ++ exponent)))

module _ {D : Type 0} (F : Floats D) where
  open F use {strtod}

  -- strtod must end at the end of the text.
  abbrev pub converted : Bytes → D × ℕ → Parser D
  converted text (d, used) = if used == length text then pure d else throw invalid_number

  unfoldable pub parse_number_literal : Parser D
  parse_number_literal = do text ← number_text; converted text (strtod text)
