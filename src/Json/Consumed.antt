-- ===== src/Json/Consumed.antt =====
-- What each part of the JSON parser leaves of its input.
use selfserv.Base.{
  ℕ, suc, ◌<◌, ◌≤◌, Bool, true, false, [], ◌∷◌, ◌==◌, Bytes, length, arith, inl, inr, length-drop,
  drop, Bool-cases,
}
use selfserv.Json.Value.{Values, Members}
use selfserv.Json.Parser.{
  Result, Parser, ok, failed, out_of_fuel, bind, skip_space, expect_char, ◌>>◌, pure, literal_chars,
  parse_string_literal,
}
use selfserv.Json.Number.{
  digits, minus_part, integer_part, fraction_part, sign_part, exponent_part, number_text,
}
use selfserv.Json.Document.{
  array_body, another_item, after_item, object_body, another_member, colon, key_part, parse_key,
  after_member,
}

-- The run kept within its fuel, and if it succeeded it left fewer than `n` bytes.
abbrev pub Leaves {ℓ} : {A : Type ℓ} → ℕ → Result (A × Bytes) → Type 0
Leaves n (ok (a, rest)) = length rest < n
Leaves n (failed m unread) = Unit
Leaves n out_of_fuel = ⊥

pub Leaves-bind {ℓ κ} :
    {A : Type ℓ} {B : Type κ} (m n : ℕ) (r : Result (A × Bytes))
    (f : A × Bytes → Result (B × Bytes))
    → Leaves m r
    → ((a : A) (rest : Bytes) → length rest < m → Leaves n (f (a, rest)))
    → Leaves n (bind r f)
Leaves-bind m n (ok (a, rest)) f h k = k a rest h
Leaves-bind m n (failed _ _) f h k = tt
Leaves-bind m n out_of_fuel f h k = h

pub Leaves-mono {ℓ} :
    {A : Type ℓ} (m n : ℕ) (r : Result (A × Bytes)) → Leaves m r → m ≤ n → Leaves n r
Leaves-mono m n (ok (a, rest)) h le = omega arith
Leaves-mono m n (failed _ _) h le = tt
Leaves-mono m n out_of_fuel h le = h

pub length-skip_space : (s : Bytes) → length (skip_space s) ≤ length s
unfolding skip_space
length-skip_space [] = omega arith
length-skip_space (c ∷ cs) = ground (arith, length-skip_space cs)

literal_chars-Leaves :
    (escaped : Bool) (s : Bytes) → Leaves (suc (length s)) (literal_chars escaped s)
unfolding literal_chars
literal_chars-Leaves true [] = tt
literal_chars-Leaves false [] = tt
literal_chars-Leaves true (c ∷ cs) = ground (arith, literal_chars-Leaves false cs)
literal_chars-Leaves false (c ∷ cs) =
    ground (arith, literal_chars-Leaves false cs, literal_chars-Leaves true cs)

pub parse_string_literal-Leaves : (s : Bytes) → Leaves (length s) (parse_string_literal s)
unfolding parse_string_literal
parse_string_literal-Leaves [] = tt
parse_string_literal-Leaves (c ∷ cs) = ground (arith, literal_chars-Leaves false cs)

pub digits-le : (s : Bytes) → length (digits s).1 ≤ length s
unfolding digits
digits-le [] = omega arith
digits-le (c ∷ cs) = ground (arith, digits-le cs)

minus_part-Leaves : (s : Bytes) → Leaves (suc (length s)) (minus_part s)
unfolding minus_part
minus_part-Leaves [] = tt
minus_part-Leaves (c ∷ cs) = ground arith

integer_part-Leaves : (s : Bytes) → Leaves (length s) (integer_part s)
unfolding integer_part
integer_part-Leaves [] = tt
integer_part-Leaves (c ∷ cs) = ground (arith, digits-le cs)

fraction_part-Leaves : (s : Bytes) → Leaves (suc (length s)) (fraction_part s)
unfolding fraction_part
fraction_part-Leaves [] = omega arith
fraction_part-Leaves (c ∷ cs) = ground (arith, digits-le cs)

sign_part-Leaves : (s : Bytes) → Leaves (suc (length s)) (sign_part s)
unfolding sign_part
sign_part-Leaves [] = omega arith
sign_part-Leaves (c ∷ cs) = ground arith

exponent_part-Leaves : (s : Bytes) → Leaves (suc (length s)) (exponent_part s)
unfolding exponent_part
exponent_part-Leaves [] = omega arith
exponent_part-Leaves (c ∷ cs) =
    ground (arith, digits-le cs, digits-le (drop 1 cs), length-drop 1 cs)

pub number_text-Leaves : (s : Bytes) → Leaves (length s) (number_text s)
unfolding number_text
number_text-Leaves s = Leaves-bind _ _ (minus_part s) _ (minus_part-Leaves s) λ _ t ht.
    Leaves-bind _ _ (integer_part t) _ (integer_part-Leaves t) λ _ u hu.
      Leaves-bind _ _ (fraction_part u) _ (fraction_part-Leaves u)
        λ _ v hv. Leaves-bind _ _ (exponent_part v) _ (exponent_part-Leaves v) λ _ w hw. omega arith

colon-Leaves : (key s : Bytes) → Leaves (length s) (colon key s)
unfolding colon
colon-Leaves key s = go (skip_space s) (length-skip_space s)
  where
    go : (t : Bytes) → length t ≤ length s → Leaves (length s) ((expect_char b':' >> pure key) t)
    go [] h = tt
    go (c ∷ cs) h = ground arith

key_part-Leaves : (s : Bytes) → Leaves (length s) (key_part s)
unfolding key_part
key_part-Leaves [] = tt
key_part-Leaves (c ∷ cs) = elim (Bool-cases (c == b'"')) [
  | inl quote ↦ rw quote (
      Leaves-bind _ _ (parse_string_literal (c ∷ cs)) (λ (key, t). colon key t)
        (parse_string_literal-Leaves (c ∷ cs))
        λ key t h. Leaves-mono _ _ (colon key t) (colon-Leaves key t) (omega arith))
  | inr other ↦ rw other tt
]

pub parse_key-Leaves : (s : Bytes) → Leaves (length s) (parse_key s)
unfolding parse_key
parse_key-Leaves s =
    Leaves-mono _ _ (key_part (skip_space s)) (key_part-Leaves (skip_space s)) (length-skip_space s)

module _ {D : Type 0} where
  pub array_body-Leaves :
      (n : ℕ) (items : Parser (Values D)) (s : Bytes)
      → length s < n
      → Leaves n (items s)
      → Leaves n (array_body items s)
  unfolding array_body
  array_body-Leaves n items [] h k = tt
  array_body-Leaves n items (c ∷ cs) h k = ground arith

  pub object_body-Leaves :
      (n : ℕ) (members : Parser (Members D)) (s : Bytes)
      → length s < n
      → Leaves n (members s)
      → Leaves n (object_body members s)
  unfolding object_body
  object_body-Leaves n members [] h k = tt
  object_body-Leaves n members (c ∷ cs) h k = ground arith

  another_item-Leaves :
      (n : ℕ) (again : Parser (Values D)) (s : Bytes)
      → Leaves n (again s)
      → Leaves n (another_item again s)
  unfolding another_item
  another_item-Leaves n again [] k = tt
  another_item-Leaves n again (c ∷ cs) k = ground arith

  pub after_item-Leaves :
      (n : ℕ) (again : Values D → Parser (Values D)) (vs : Values D) (s : Bytes)
      → length s ≤ n
      → ((t : Bytes) → length t < length s → Leaves n (again vs t))
      → Leaves n (after_item again vs s)
  unfolding after_item
  after_item-Leaves n again vs [] h k = tt
  after_item-Leaves n again vs (c ∷ cs) h k = ground (
    arith,
    length-skip_space cs,
    k (skip_space cs),
    another_item-Leaves n (again vs) (skip_space cs),
  )

  another_member-Leaves :
      (n : ℕ) (again : Parser (Members D)) (s : Bytes)
      → Leaves n (again s)
      → Leaves n (another_member again s)
  unfolding another_member
  another_member-Leaves n again [] k = tt
  another_member-Leaves n again (c ∷ cs) k = ground arith

  pub after_member-Leaves :
      (n : ℕ) (again : Members D → Parser (Members D)) (ms : Members D) (s : Bytes)
      → length s ≤ n
      → ((t : Bytes) → length t < length s → Leaves n (again ms t))
      → Leaves n (after_member again ms s)
  unfolding after_member
  after_member-Leaves n again ms [] h k = tt
  after_member-Leaves n again ms (c ∷ cs) h k = ground (
    arith,
    length-skip_space cs,
    k (skip_space cs),
    another_member-Leaves n (again ms) (skip_space cs),
  )
