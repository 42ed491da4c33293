-- ===== src/Json/Numeral.antt =====
-- The numerals of RFC 8259, and ParseNumberLiteral against them.
pub mod Sound
use selfserv.Base.{
  all_digits, ℕ, zero, suc, ◌+◌, ◌<◌, ◌≡◌, ◌≢◌, refl, ◌⊎◌, inl, inr, Bool, true, false, not, ◌&&◌,
  ◌||◌, List, [], ◌∷◌, ◌++◌, ◌==◌, if◌then◌else◌, Bytes, is_digit, arith, append-nil, append_assoc,
  Bool-cases,
}
use selfserv.Json.Parser.{Result, ok, failed}
use selfserv.Json.Number.{
  digits, no_digit, minus_part, integer_part, fraction_part, sign_part, exponent_part, number_text,
}

-- One digit or more.
abbrev pub IsDigits : Bytes → Type 0
IsDigits [] = ⊥
IsDigits (c ∷ cs) = (is_digit c ≡ true) × (all_digits cs ≡ true)

abbrev pub IsMinus : Bytes → Type 0
IsMinus [] = Unit
IsMinus (c ∷ []) = c ≡ b'-'
IsMinus _ = ⊥

-- One zero, or digits that do not start with a zero.
abbrev pub IsWhole : Bytes → Type 0
IsWhole [] = ⊥
IsWhole (c ∷ []) = is_digit c ≡ true
IsWhole (c ∷ d ∷ cs) = (c ≢ b'0') × (all_digits (c ∷ d ∷ cs) ≡ true)

abbrev pub IsFraction : Bytes → Type 0
IsFraction [] = Unit
IsFraction (c ∷ cs) = (c ≡ b'.') × IsDigits cs

abbrev pub IsSigned : Bytes → Type 0
IsSigned [] = ⊥
IsSigned (c ∷ cs) = IsDigits (c ∷ cs) ⊎ ((c == b'+' || c == b'-') ≡ true) × IsDigits cs

abbrev pub IsExponent : Bytes → Type 0
IsExponent [] = Unit
IsExponent (c ∷ cs) = ((c == b'e' || c == b'E') ≡ true) × IsSigned cs

-- number = [ minus ] int [ frac ] [ exp ]
pub record IsNumeral (text : Bytes) : Type 0 where
  pub minus : Bytes
  pub whole : Bytes
  pub fraction : Bytes
  pub exponent : Bytes
  pub parts : text ≡ minus ++ (whole ++ (fraction ++ exponent))
  pub minus_form : IsMinus minus
  pub whole_form : IsWhole whole
  pub fraction_form : IsFraction fraction
  pub exponent_form : IsExponent exponent

-- The text goes on with nothing that a numeral could take.
abbrev pub ends : Bytes → Bool
ends [] = true
ends (c ∷ cs) = not (is_digit c || c == b'.' || c == b'e' || c == b'E')

digits-append :
    (ds rest : Bytes)
    → all_digits ds ≡ true
    → no_digit rest ≡ true
    → digits (ds ++ rest) ≡ (ds, rest)
unfolding digits no_digit
digits-append [] [] h k = refl
digits-append [] (c ∷ cs) h k = ground arith
digits-append (d ∷ ds) rest h k = ground (arith, digits-append ds rest)

abbrev starts_whole : Bytes → Bool
starts_whole [] = false
starts_whole (c ∷ cs) = is_digit c

minus_part-append :
    (m rest : Bytes) → IsMinus m → starts_whole rest ≡ true → minus_part (m ++ rest) ≡ ok (m, rest)
unfolding minus_part
minus_part-append [] [] h k = cc
minus_part-append [] (c ∷ cs) h k = ground arith
minus_part-append (c ∷ []) rest h k = ground arith
minus_part-append (c ∷ d ∷ cs) rest h k = absurd h

integer_part-append :
    (w rest : Bytes) → IsWhole w → no_digit rest ≡ true → integer_part (w ++ rest) ≡ ok (w, rest)
unfolding integer_part
integer_part-append [] rest h k = absurd h
integer_part-append (c ∷ []) rest h k = ground (arith, digits-append (c ∷ []) rest)
integer_part-append (c ∷ d ∷ cs) rest h k = ground (arith, digits-append (c ∷ d ∷ cs) rest)

abbrev ends_fraction : Bytes → Bool
ends_fraction [] = true
ends_fraction (c ∷ cs) = not (is_digit c || c == b'.')

ends_fraction→no_digit : (s : Bytes) → ends_fraction s ≡ true → no_digit s ≡ true
unfolding no_digit
ends_fraction→no_digit [] h = refl
ends_fraction→no_digit (c ∷ cs) h = ground arith

fraction_part-append :
    (w rest : Bytes)
    → IsFraction w
    → ends_fraction rest ≡ true
    → fraction_part (w ++ rest) ≡ ok (w, rest)
unfolding fraction_part
fraction_part-append [] [] h k = refl
fraction_part-append [] (c ∷ cs) h k = ground arith
fraction_part-append (c ∷ []) rest h k = absurd h.1
fraction_part-append (c ∷ d ∷ ds) rest h k =
    ground (arith, digits-append (d ∷ ds) rest, ends_fraction→no_digit rest)

ends→no_digit : (s : Bytes) → ends s ≡ true → no_digit s ≡ true
unfolding no_digit
ends→no_digit [] h = refl
ends→no_digit (c ∷ cs) h = ground arith

exponent_part-append :
    (e rest : Bytes) → IsExponent e → ends rest ≡ true → exponent_part (e ++ rest) ≡ ok (e, rest)
unfolding exponent_part
exponent_part-append [] [] h k = refl
exponent_part-append [] (c ∷ cs) h k = ground arith
exponent_part-append (c ∷ []) rest h k = absurd h.1
exponent_part-append (c ∷ d ∷ []) rest (h, inl l) k =
    ground (arith, digits-append (d ∷ []) rest, ends→no_digit rest)
exponent_part-append (c ∷ d ∷ []) rest (h, inr l) k = absurd l.1
exponent_part-append (c ∷ d ∷ e ∷ ds) rest (h, inl l) k =
    ground (arith, digits-append (d ∷ e ∷ ds) rest, ends→no_digit rest)
exponent_part-append (c ∷ d ∷ e ∷ ds) rest (h, inr l) k =
    ground (arith, digits-append (e ∷ ds) rest, ends→no_digit rest)

starts_whole-append : (w rest : Bytes) → IsWhole w → starts_whole (w ++ rest) ≡ true
starts_whole-append [] rest h = absurd h
starts_whole-append (c ∷ []) rest h = h
starts_whole-append (c ∷ d ∷ cs) rest h = ground arith

ends_fraction-append :
    (e rest : Bytes) → IsExponent e → ends rest ≡ true → ends_fraction (e ++ rest) ≡ true
ends_fraction-append [] [] h k = refl
ends_fraction-append [] (c ∷ cs) h k = ground arith
ends_fraction-append (c ∷ cs) rest h k = ground arith

no_digit-append :
    (f rest : Bytes) → IsFraction f → ends_fraction rest ≡ true → no_digit (f ++ rest) ≡ true
unfolding no_digit
no_digit-append [] rest h k = ends_fraction→no_digit rest k
no_digit-append (c ∷ cs) rest h k = ground arith

-- The scan takes a whole numeral off any input that goes on with no character of a numeral.
pub number_text-append :
    {text : Bytes} (n : IsNumeral text) (rest : Bytes)
    → ends rest ≡ true
    → number_text (text ++ rest) ≡ ok (text, rest)
unfolding number_text
number_text-append n rest h =
    let tail : Bytes = n.exponent ++ rest in
    let after = ends_fraction-append n.exponent rest n.exponent_form h in
    let no_more = no_digit-append n.fraction tail n.fraction_form after in
    rw (
      n.parts,
      append_assoc,
      append_assoc,
      append_assoc,
      minus_part-append n.minus (n.whole ++ (n.fraction ++ tail)) n.minus_form
          (starts_whole-append n.whole (n.fraction ++ tail) n.whole_form),
      integer_part-append n.whole (n.fraction ++ tail) n.whole_form no_more,
      fraction_part-append n.fraction tail n.fraction_form after,
      exponent_part-append n.exponent rest n.exponent_form h,
    )
