-- ===== src/Json/Numeral/Sound.antt =====
-- What ParseNumberLiteral scans is a numeral of RFC 8259.
use selfserv.Base.{
  all_digits, ℕ, ◌≡◌, ◌≢◌, refl, inl, true, false, [], ◌∷◌, ◌++◌, Bytes, is_digit, arith,
  append_assoc, ◌↔◌, append-nil,
}
use selfserv.Json.Parser.{Result, ok, failed, out_of_fuel, bind}
use selfserv.Json.Number.{
  digits, no_digit, minus_part, integer_part, fraction_part, exponent_part, number_text,
}
use selfserv.Json.Numeral.{
  IsDigits, IsMinus, IsWhole, IsFraction, IsSigned, IsExponent, IsNumeral, number_text-append,
}

-- If the run succeeded, it took a text of the given form off the front of the input.
abbrev Takes : (Bytes → Type 0) → Bytes → Result (Bytes × Bytes) → Type 0
Takes P s (ok (text, rest)) = P text × (s ≡ text ++ rest)
Takes P s (failed _ _) = Unit
Takes P s out_of_fuel = Unit

Takes-bind :
    {P : Bytes → Type 0} (Q : Bytes → Type 0) (whole s : Bytes) (r : Result (Bytes × Bytes))
    (f : Bytes × Bytes → Result (Bytes × Bytes))
    → Takes P s r
    → ((t rest : Bytes) → P t → s ≡ t ++ rest → Takes Q whole (f (t, rest)))
    → Takes Q whole (bind r f)
Takes-bind Q whole s (ok (t, rest)) f h k = k t rest h.0 h.1
Takes-bind Q whole s (failed _ _) f h k = tt
Takes-bind Q whole s out_of_fuel f h k = tt

digits-Takes : (s : Bytes) → (all_digits (digits s).0 ≡ true) × (s ≡ (digits s).0 ++ (digits s).1)
unfolding digits
digits-Takes [] = (refl, refl)
digits-Takes (c ∷ cs) = ground (arith, digits-Takes cs)

some_digits-IsDigits : (s : Bytes) → no_digit s ≡ false → IsDigits (digits s).0
unfolding digits no_digit
some_digits-IsDigits [] h = cc
some_digits-IsDigits (c ∷ cs) h = ground (arith, digits-Takes cs)

IsSigned-digits : (ds : Bytes) → IsDigits ds → IsSigned ds
IsSigned-digits [] h = h
IsSigned-digits (d ∷ ds) h = inl h

minus_part-Takes : (s : Bytes) → Takes IsMinus s (minus_part s)
unfolding minus_part
minus_part-Takes [] = tt
minus_part-Takes (c ∷ cs) = ground arith

IsWhole-digits :
    (c : ℕ) (ds : Bytes) → c ≢ b'0' → is_digit c ≡ true → all_digits ds ≡ true → IsWhole (c ∷ ds)
IsWhole-digits c [] n h k = h
IsWhole-digits c (d ∷ ds) n h k = ground arith

integer_part-Takes : (s : Bytes) → Takes IsWhole s (integer_part s)
unfolding integer_part
integer_part-Takes [] = tt
integer_part-Takes (c ∷ cs) = ground (arith, digits-Takes cs, IsWhole-digits c (digits cs).0)

fraction_part-Takes : (s : Bytes) → Takes IsFraction s (fraction_part s)
unfolding fraction_part
fraction_part-Takes [] = (tt, refl)
fraction_part-Takes (c ∷ cs) = ground (arith, digits-Takes cs, some_digits-IsDigits cs)

exponent_part-Takes : (s : Bytes) → Takes IsExponent s (exponent_part s)
unfolding exponent_part
exponent_part-Takes [] = (tt, refl)
exponent_part-Takes (c ∷ []) = ground arith
exponent_part-Takes (c ∷ d ∷ cs) = ground (
  arith,
  digits-Takes (d ∷ cs),
  digits-Takes cs,
  some_digits-IsDigits (d ∷ cs),
  some_digits-IsDigits cs,
  IsSigned-digits (digits (d ∷ cs)).0,
)

number_text-Takes : (s : Bytes) → Takes IsNumeral s (number_text s)
unfolding number_text
number_text-Takes s = Takes-bind IsNumeral s s (minus_part s) _ (minus_part-Takes s) λ m t hm em.
    Takes-bind IsNumeral s t (integer_part t) _ (integer_part-Takes t) λ w u hw ew.
      Takes-bind IsNumeral s u (fraction_part u) _ (fraction_part-Takes u) λ f v hf ef.
        Takes-bind IsNumeral s v (exponent_part v) _ (exponent_part-Takes v) λ e rest he ee. (
          record {
            minus = m;
            whole = w;
            fraction = f;
            exponent = e;
            parts = refl;
            minus_form = hm;
            whole_form = hw;
            fraction_form = hf;
            exponent_form = he;
          },
          simp (em, ew, ef, ee, append_assoc),
        )

-- Whatever the scan accepts is a numeral, and the text and what is left make up the input.
pub number_text-IsNumeral :
    (s : Bytes) {text rest : Bytes}
    → number_text s ≡ ok (text, rest)
    → IsNumeral text × (s ≡ text ++ rest)
number_text-IsNumeral s e = rw e at (number_text-Takes s)

-- The scan takes the whole of a text exactly when the text is a numeral.
pub number_text_iff : (s : Bytes) → (number_text s ≡ ok (s, [])) ↔ IsNumeral s
number_text_iff s =
    (λ e. (number_text-IsNumeral s e).0, λ n. rw append-nil at (number_text-append n [] refl))
