-- ===== src/Json/Fuel.antt =====
-- The fuel of the JSON parser. Every parser that succeeds leaves fewer bytes than it was given, so
-- fuel of twice the length of the input is not used up.
use selfserv.Base.{
  ℕ, zero, suc, ◌+◌, ◌*◌, ◌<◌, ◌≤◌, ◌≢◌, [], ◌∷◌, Bytes, length, arith, length-drop,
}
use selfserv.Json.Value.{JsonValue, Values, Members, no_values, no_members, add_value, set_value}
use selfserv.Json.Floats.{Floats}
use selfserv.Json.Parser.{Result, Parser, out_of_fuel, bind, skip_space, peek_char}
use selfserv.Json.Number.{parse_number_literal}
use selfserv.Json.Document.{
  parse_null, parse_bool, parse_string, parse_array, parse_object, parse_key, parse_number, choose,
  parse_value, parse_items, parse_members, finish, parse_document, parse,
}
use selfserv.Json.Consumed.{
  length-skip_space, Leaves, Leaves-bind, Leaves-mono, parse_string_literal-Leaves,
  number_text-Leaves, parse_key-Leaves, array_body-Leaves, object_body-Leaves, after_item-Leaves,
  after_member-Leaves,
}

module _ (D : Type 0) where
  parse_null-Leaves : (s : Bytes) → Leaves (length s) (parse_null {D = D} s)
  unfolding parse_null
  parse_null-Leaves [] = tt
  parse_null-Leaves (c ∷ cs) = ground (arith, length-drop 3 cs)

  parse_bool-Leaves : (s : Bytes) → Leaves (length s) (parse_bool {D = D} s)
  unfolding parse_bool
  parse_bool-Leaves [] = tt
  parse_bool-Leaves (c ∷ cs) = ground (arith, length-drop 3 cs, length-drop 4 cs)

  parse_string-Leaves : (s : Bytes) → Leaves (length s) (parse_string {D = D} s)
  unfolding parse_string
  parse_string-Leaves s = ground (arith, parse_string_literal-Leaves s)

module _ {D : Type 0} where
  parse_array-Leaves :
      (n : ℕ) (items : Parser (Values D)) (s : Bytes)
      → length s ≤ n
      → ((t : Bytes) → length t < length s → Leaves n (items t))
      → Leaves n (parse_array items s)
  unfolding parse_array
  parse_array-Leaves n items [] h k = tt
  parse_array-Leaves n items (c ∷ cs) h k =
      ground
        (arith, length-skip_space cs, k (skip_space cs), array_body-Leaves n items (skip_space cs))

  parse_object-Leaves :
      (n : ℕ) (members : Parser (Members D)) (s : Bytes)
      → length s ≤ n
      → ((t : Bytes) → length t < length s → Leaves n (members t))
      → Leaves n (parse_object members s)
  unfolding parse_object
  parse_object-Leaves n members [] h k = tt
  parse_object-Leaves n members (c ∷ cs) h k =
      ground (
        arith,
        length-skip_space cs,
        k (skip_space cs),
        object_body-Leaves n members (skip_space cs),
      )

module _ {D : Type 0} (F : Floats D) where
  parse_number-Leaves : (s : Bytes) → Leaves (length s) (parse_number F s)
  unfolding parse_number parse_number_literal
  parse_number-Leaves s = ground (arith, number_text-Leaves s)

  choose-Leaves :
      (n : ℕ) (arrays objects : Parser (JsonValue D)) (c : ℕ) (s : Bytes)
      → length s ≤ n
      → Leaves n (arrays s)
      → Leaves n (objects s)
      → Leaves n (choose F arrays objects c s)
  unfolding choose
  choose-Leaves n arrays objects c s h ka ko = ground (
    arith,
    parse_null-Leaves D s,
    parse_bool-Leaves D s,
    parse_string-Leaves D s,
    parse_number-Leaves s,
  )

  abbrev dispatch :
      Parser (JsonValue D) → Parser (JsonValue D) → Bytes → Result (JsonValue D × Bytes)
  dispatch arrays objects s = bind (peek_char s) λ (c, t). choose F arrays objects c t

  dispatch-Leaves :
      (n : ℕ) (items : Parser (Values D)) (members : Parser (Members D)) (s : Bytes)
      → length s ≤ n
      → ((t : Bytes) → length t < length s → Leaves n (items t))
      → ((t : Bytes) → length t < length s → Leaves n (members t))
      → Leaves n (dispatch (parse_array items) (parse_object members) s)
  unfolding peek_char
  dispatch-Leaves n items members [] h ki km = tt
  dispatch-Leaves n items members (c ∷ cs) h ki km =
      choose-Leaves n (parse_array items) (parse_object members) c (c ∷ cs) h
        (parse_array-Leaves n items (c ∷ cs) h ki) (parse_object-Leaves n members (c ∷ cs) h km)

  mutual
    unfolding parse_value

    parse_value-Leaves :
        (f : ℕ) (s : Bytes) → 2 * length s < f → Leaves (length s) (parse_value F f s)
    parse_value-Leaves zero s h = absurd (omega arith)
    parse_value-Leaves (suc f) s h =
        dispatch-Leaves (length s) _ _ (skip_space s) (length-skip_space s)
          (λ t ht.
            Leaves-mono (length t) (length s) _
              (parse_items-Leaves f no_values t (omega (arith, length-skip_space s)))
              (omega (arith, length-skip_space s)))
          (λ t ht.
            Leaves-mono (length t) (length s) _
              (parse_members-Leaves f no_members t (omega (arith, length-skip_space s)))
              (omega (arith, length-skip_space s)))

    parse_items-Leaves :
        (f : ℕ) (vs : Values D) (s : Bytes)
        → 2 * length s + 1 < f
        → Leaves (length s) (parse_items F f vs s)
    parse_items-Leaves zero vs s h = absurd (omega arith)
    parse_items-Leaves (suc f) vs s h =
        Leaves-bind _ _ (parse_value F f s) _ (parse_value-Leaves f s (omega arith)) λ v t ht.
          after_item-Leaves (length s) (parse_items F f) (add_value vs v) (skip_space t)
            (omega (arith, length-skip_space t))
            λ u hu.
              Leaves-mono (length u) (length s) _
                (parse_items-Leaves f (add_value vs v) u (omega (arith, length-skip_space t)))
                (omega (arith, length-skip_space t))

    parse_members-Leaves :
        (f : ℕ) (ms : Members D) (s : Bytes)
        → 2 * length s + 1 < f
        → Leaves (length s) (parse_members F f ms s)
    parse_members-Leaves zero ms s h = absurd (omega arith)
    parse_members-Leaves (suc f) ms s h =
        Leaves-bind _ _ (parse_key s) _ (parse_key-Leaves s) λ k r hr.
          Leaves-bind _ _ (parse_value F f r) _ (parse_value-Leaves f r (omega arith)) λ v t ht.
            after_member-Leaves (length s) (parse_members F f) (set_value k v ms) (skip_space t)
              (omega (arith, length-skip_space t))
              λ u hu.
                Leaves-mono (length u) (length s) _
                  (parse_members-Leaves f (set_value k v ms) u (omega (arith, length-skip_space t)))
                  (omega (arith, length-skip_space t))

  parse_document-Leaves :
      (fuel : ℕ) (s : Bytes) → 2 * length s < fuel → parse_document F fuel s ≢ out_of_fuel
  unfolding parse_document finish
  parse_document-Leaves fuel [] h = ground arith
  parse_document-Leaves fuel (c ∷ cs) h = ground (arith, parse_value-Leaves fuel (c ∷ cs) h)

  -- Parsing ends on every input: the fuel that `parse` hands out, twice the length of the input and
  -- one more, is never used up.
  pub parse-ne-out_of_fuel : (json : Bytes) → parse F json ≢ out_of_fuel
  unfolding parse
  parse-ne-out_of_fuel json =
      parse_document-Leaves (2 * length json + 1) (skip_space json)
        (omega (arith, length-skip_space json))
