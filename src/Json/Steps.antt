-- ===== src/Json/Steps.antt =====
-- One step of the JSON parser on each kind of text that ToString writes.
use selfserv.Base.{
  ℕ, zero, suc, ◌≡◌, refl, Bool, true, false, ◌||◌, [], ◌∷◌, ◌++◌, ◌==◌, Bytes, is_digit, length,
  arith, append_assoc, ==_refl,
}
use selfserv.Json.Value.{
  JsonValue, Values, Members, number, string, array, object, no_values, no_members,
}
use selfserv.Json.Floats.{Floats}
use selfserv.Json.Print.{string_text}
use selfserv.Json.Parser.{Result, Parser, ok, bind, skip_space, peek_char}
use selfserv.Json.Number.{parse_number_literal}
use selfserv.Json.Numeral.{IsNumeral, number_text-append, ends, IsWhole, IsMinus}
use selfserv.Json.Literal.{
  all_text, all_plain, parse_string_literal-string_text, literal_chars-plain,
}
use selfserv.Json.Document.{
  parse_string, parse_array, array_body, another_item, after_item, parse_object, after_member,
  key_part, parse_key, parse_number, choose, parse_value, parse_items, parse_members,
}
use selfserv.Json.Writable.{IsExact, opens}

pub skip_space-opens : (s : Bytes) → opens s ≡ true → skip_space s ≡ s
unfolding skip_space
skip_space-opens [] h = refl
skip_space-opens (c ∷ cs) h = ground arith

pub parse_key-plain :
    (k s : Bytes) → all_plain k ≡ true → parse_key (b'"' ∷ (k ++ b'"' ∷ b':' ∷ s)) ≡ ok (k, s)
unfolding parse_key key_part skip_space
parse_key-plain k s h = rw (literal_chars-plain k (b':' ∷ s) h)

module _ {D : Type 0} where
  array_body-opens :
      (items : Parser (Values D)) (s : Bytes)
      → opens s ≡ true
      → array_body items s ≡ bind (items s) λ (vs, t). ok (array vs, t)
  unfolding array_body
  array_body-opens items [] h = cc
  array_body-opens items (c ∷ cs) h = ground arith

  pub parse_array-opens :
      (items : Parser (Values D)) (s : Bytes)
      → opens s ≡ true
      → parse_array items (b'[' ∷ s) ≡ bind (items s) λ (vs, t). ok (array vs, t)
  unfolding parse_array
  parse_array-opens items s h = rw (skip_space-opens s h) (array_body-opens items s h)

  another_item-opens :
      (again : Parser (Values D)) (s : Bytes) → opens s ≡ true → another_item again s ≡ again s
  unfolding another_item
  another_item-opens again [] h = cc
  another_item-opens again (c ∷ cs) h = ground arith

  pub after_item-comma :
      (again : Values D → Parser (Values D)) (vs : Values D) (s : Bytes)
      → opens s ≡ true
      → after_item again vs (skip_space (b',' ∷ b' ' ∷ s)) ≡ again vs s
  unfolding after_item skip_space
  after_item-comma again vs s h = rw (skip_space-opens s h) (another_item-opens (again vs) s h)

  pub after_item-close :
      (again : Values D → Parser (Values D)) (vs : Values D) (s : Bytes)
      → after_item again vs (skip_space (b']' ∷ s)) ≡ ok (vs, s)
  unfolding after_item skip_space
  after_item-close again vs s = refl

  pub parse_object-quote :
      (members : Parser (Members D)) (s : Bytes)
      → parse_object members (b'{' ∷ b'"' ∷ s)
        ≡ bind (members (b'"' ∷ s)) λ (ms, t). ok (object ms, t)
  unfolding parse_object skip_space
  parse_object-quote members s = refl

  pub after_member-comma :
      (again : Members D → Parser (Members D)) (ms : Members D) (s : Bytes)
      → after_member again ms (skip_space (b',' ∷ b' ' ∷ b'"' ∷ s)) ≡ again ms (b'"' ∷ s)
  unfolding after_member skip_space
  after_member-comma again ms s = refl

  pub after_member-close :
      (again : Members D → Parser (Members D)) (ms : Members D) (s : Bytes)
      → after_member again ms (skip_space (b'}' ∷ s)) ≡ ok (ms, s)
  unfolding after_member skip_space
  after_member-close again ms s = refl

abbrev starts_number : Bytes → Bool
starts_number [] = false
starts_number (c ∷ cs) = c == b'-' || is_digit c

whole-starts_number : (w rest : Bytes) → IsWhole w → starts_number (w ++ rest) ≡ true
whole-starts_number [] rest h = absurd h
whole-starts_number (c ∷ []) rest h = ground arith
whole-starts_number (c ∷ d ∷ cs) rest h = ground arith

starts_number-append :
    (m w rest : Bytes) → IsMinus m → IsWhole w → starts_number (m ++ (w ++ rest)) ≡ true
starts_number-append [] w rest h k = whole-starts_number w rest k
starts_number-append (c ∷ []) w rest h k = ground arith
starts_number-append (c ∷ d ∷ cs) w rest h k = absurd h

starts_number-IsNumeral :
    {text : Bytes} (n : IsNumeral text) (rest : Bytes) → starts_number (text ++ rest) ≡ true
starts_number-IsNumeral n rest =
    rw (n.parts, append_assoc, append_assoc)
      (starts_number-append n.minus n.whole _ n.minus_form n.whole_form)

starts_number→opens : (s : Bytes) → starts_number s ≡ true → opens s ≡ true
starts_number→opens [] h = cc
starts_number→opens (c ∷ cs) h = ground arith

pub opens-IsNumeral :
    {text : Bytes} (n : IsNumeral text) (rest : Bytes) → opens (text ++ rest) ≡ true
opens-IsNumeral {text} n rest = starts_number→opens (text ++ rest) (starts_number-IsNumeral n rest)

module _ {D : Type 0} (F : Floats D) where
  open F use {show}

  abbrev choose_at : ℕ → Bytes → Result (JsonValue D × Bytes)
  choose_at f s = bind (peek_char s) λ (c, t).
      choose F (parse_array (parse_items F f no_values))
        (parse_object (parse_members F f no_members)) c t

  pub parse_value-opens :
      (f : ℕ) (s : Bytes) → opens s ≡ true → parse_value F (suc f) s ≡ choose_at f s
  unfolding parse_value
  parse_value-opens f s h = rw (skip_space-opens s h)

  pub parse_value-space : (f : ℕ) (s : Bytes) → parse_value F f (b' ' ∷ s) ≡ parse_value F f s
  unfolding parse_value skip_space
  parse_value-space zero s = refl
  parse_value-space (suc f) s = refl

  choose_at-number : (f : ℕ) (s : Bytes) → starts_number s ≡ true → choose_at f s ≡ parse_number F s
  unfolding choose peek_char
  choose_at-number f [] h = cc
  choose_at-number f (c ∷ cs) h = ground arith

  parse_number-show :
      (d : D) (rest : Bytes)
      → IsExact F d
      → ends rest ≡ true
      → parse_number F (show d ++ rest) ≡ ok (number d, rest)
  unfolding parse_number parse_number_literal
  parse_number-show d rest x h =
      rw (number_text-append x.numeral rest h, x.reads, ==_refl (length (show d)))

  pub parse_value-number :
      (f : ℕ) (d : D) (rest : Bytes)
      → IsExact F d
      → ends rest ≡ true
      → parse_value F (suc f) (show d ++ rest) ≡ ok (number d, rest)
  parse_value-number f d rest x h =
      rw
        (
          parse_value-opens f (show d ++ rest) (opens-IsNumeral x.numeral rest),
          choose_at-number f (show d ++ rest) (starts_number-IsNumeral x.numeral rest),
        )
        (parse_number-show d rest x h)

  pub parse_value-string :
      (f : ℕ) (s rest : Bytes)
      → all_text s ≡ true
      → parse_value F (suc f) (string_text s ++ rest) ≡ ok (string s, rest)
  unfolding string_text parse_string choose peek_char
  parse_value-string f s rest h =
      rw (
        parse_value-opens f (string_text s ++ rest) refl,
        parse_string_literal-string_text s rest h,
      )
