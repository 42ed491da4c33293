-- ===== src/Json/Literal.antt =====
-- String literals: JsonString::ToString against ParseStringLiteral.
use selfserv.Base.{
  ℕ, ◌≡◌, ◌↔◌, refl, Bool, true, false, not, ◌&&◌, ◌||◌, [], ◌∷◌, ◌++◌, ◌==◌, ltb, leb, &&-split,
  ◌≤◌, Bytes, arith, append_assoc, Bool-cases, inl, inr,
}
use selfserv.Json.Parser.{
  Result, ok, failed, out_of_fuel, control_character, literal_chars, parse_string_literal, prepend,
}
use selfserv.Json.Print.{escape_byte, escape, string_text}

-- A byte that ToString writes in a form that the parser takes: one from 32 to 127 (which is DEL), or
-- one of the three with an escape of their own.
unfoldable pub is_text : ℕ → Bool
is_text c = (leb 32 c && ltb c 128) || c == b'\n' || c == b'\r' || c == b'\t'

abbrev pub all_text : Bytes → Bool
all_text [] = true
all_text (c ∷ cs) = is_text c && all_text cs

-- A byte that stands for itself in a literal.
unfoldable pub is_plain : ℕ → Bool
is_plain c = leb 32 c && ltb c 128 && not (c == b'"') && not (c == b'\\')

abbrev pub all_plain : Bytes → Bool
all_plain [] = true
all_plain (c ∷ cs) = is_plain c && all_plain cs

literal_chars-escape_byte :
    (c : ℕ) (rest : Bytes)
    → is_text c ≡ true
    → literal_chars false (escape_byte c ++ rest) ≡ prepend c (literal_chars false rest)
unfolding literal_chars escape_byte is_text
literal_chars-escape_byte c rest h = ground arith

literal_chars-escape :
    (s rest : Bytes)
    → all_text s ≡ true
    → literal_chars false (escape s ++ b'"' ∷ rest) ≡ ok (s, rest)
unfolding escape
literal_chars-escape [] rest h = unfold literal_chars in refl
literal_chars-escape (c ∷ cs) rest h =
    let (first, others) = &&-split (is_text c) (all_text cs) h in
    rw (
      append_assoc,
      literal_chars-escape_byte c (escape cs ++ b'"' ∷ rest) first,
      literal_chars-escape cs rest others,
    )

-- A string that ToString wrote reads back as itself.
pub parse_string_literal-string_text :
    (s rest : Bytes)
    → all_text s ≡ true
    → parse_string_literal (string_text s ++ rest) ≡ ok (s, rest)
unfolding string_text parse_string_literal
parse_string_literal-string_text s rest h = rw append_assoc (literal_chars-escape s rest h)

literal_chars-is_plain :
    (c : ℕ) (rest : Bytes)
    → is_plain c ≡ true
    → literal_chars false (c ∷ rest) ≡ prepend c (literal_chars false rest)
unfolding literal_chars is_plain
literal_chars-is_plain c rest h = ground arith

pub literal_chars-plain :
    (s rest : Bytes) → all_plain s ≡ true → literal_chars false (s ++ b'"' ∷ rest) ≡ ok (s, rest)
literal_chars-plain [] rest h = unfold literal_chars in refl
literal_chars-plain (c ∷ cs) rest h =
    let (first, others) = &&-split (is_plain c) (all_plain cs) h in
    rw (literal_chars-is_plain c (cs ++ b'"' ∷ rest) first, literal_chars-plain cs rest others)

-- Any other byte, anywhere in the string, makes the parser refuse what ToString
-- wrote.
literal_chars-other_byte :
    (c : ℕ) (rest : Bytes)
    → is_text c ≡ false
    → literal_chars false (escape_byte c ++ rest) ≡ failed control_character rest
unfolding literal_chars escape_byte is_text
literal_chars-other_byte c rest h = ground arith

prepend-eq-ok :
    (c : ℕ) (m : Result (Bytes × Bytes)) {r : Bytes × Bytes}
    → prepend c m ≡ ok r
    → (q : Bytes × Bytes) × (m ≡ ok q)
prepend-eq-ok c (ok q) e = (q, refl)
prepend-eq-ok c (failed _ _) e = cc
prepend-eq-ok c out_of_fuel e = cc

literal_chars-printed :
    (s rest : Bytes) {r : Bytes × Bytes}
    → literal_chars false (escape s ++ b'"' ∷ rest) ≡ ok r
    → all_text s ≡ true
unfolding escape
literal_chars-printed [] rest e = refl
literal_chars-printed (c ∷ cs) rest e =
    let tail : Bytes = escape cs ++ b'"' ∷ rest in
    let e' = rw append_assoc at e in
    elim (Bool-cases (is_text c)) [
      | inl good ↦
          let (q, read) =
            prepend-eq-ok c (literal_chars false tail)
              (rw (literal_chars-escape_byte c tail good) at e') in
          rw (good, literal_chars-printed cs rest read)
      | inr bad ↦ cc (literal_chars-other_byte c tail bad, e')
    ]

-- A string s, written by ToString in front of any bytes, reads back as s exactly when its bytes are
-- from 32 to 127, newlines, carriage returns and tabs.
pub string_text-reads_back_iff :
    (s rest : Bytes)
    → (parse_string_literal (string_text s ++ rest) ≡ ok (s, rest)) ↔ (all_text s ≡ true)
unfolding string_text parse_string_literal
string_text-reads_back_iff s rest = (
  λ e. literal_chars-printed s rest (rw append_assoc at e),
  parse_string_literal-string_text s rest,
)

literal_chars-non_ascii_byte :
    (c : ℕ) (rest : Bytes)
    → 128 ≤ c
    → literal_chars false (c ∷ rest) ≡ failed control_character rest
unfolding literal_chars
literal_chars-non_ascii_byte c rest k = ground arith

-- `char` is signed: a literal whose plain part is followed by a byte from 128 on, such as the first
-- byte of a UTF-8 character outside ASCII, is refused as a control character.
pub parse_string_literal-non_ascii :
    (plain : Bytes) (c : ℕ) (rest : Bytes)
    → all_plain plain ≡ true
    → 128 ≤ c
    → parse_string_literal (b'"' ∷ (plain ++ c ∷ rest)) ≡ failed control_character rest
unfolding parse_string_literal
parse_string_literal-non_ascii plain c rest h k = go plain h
  where
    go :
        (s : Bytes)
        → all_plain s ≡ true
        → literal_chars false (s ++ c ∷ rest) ≡ failed control_character rest
    go [] e = literal_chars-non_ascii_byte c rest k
    go (x ∷ xs) e =
        let (first, others) = &&-split (is_plain x) (all_plain xs) e in
        rw (literal_chars-is_plain x (xs ++ c ∷ rest) first, go xs others)
