-- ===== src/Json/Keys.antt =====
-- Keys that JsonObject::ToString writes without escapes.
use selfserv.Base.{
  ℕ, suc, ◌+◌, ◌*◌, ◌-◌, ◌≡◌, refl, true, false, ◌<◌, [], ◌∷◌, ◌++◌, Bytes, length, arith,
  append_assoc,
}
use selfserv.Json.Value.{JsonValue, Members, object, member, no_members}
use selfserv.Json.Floats.{Floats}
use selfserv.Json.Print.{to_string, members_text}
use selfserv.Json.Parser.{failed, expected, skip_space, peek_char}
use selfserv.Json.Literal.{all_plain, literal_chars-plain}
use selfserv.Json.Document.{
  parse_key, key_part, choose, parse_value, parse_members, parse_document, parse,
}
use selfserv.Json.Steps.{parse_value-opens, parse_object-quote}

parse_key-quote :
    (p s : Bytes)
    → all_plain p ≡ true
    → parse_key (b'"' ∷ (p ++ b'"' ∷ b'"' ∷ s)) ≡ failed (expected b':' b'"') s
unfolding parse_key key_part skip_space
parse_key-quote p s h = rw (literal_chars-plain p (b'"' ∷ s) h)

module _ {D : Type 0} (F : Floats D) where
  parse_members-quote :
      (g : ℕ) (ms : Members D) (p s : Bytes)
      → all_plain p ≡ true
      → parse_members F (suc g) ms (b'"' ∷ (p ++ b'"' ∷ b'"' ∷ s)) ≡ failed (expected b':' b'"') s
  unfolding parse_members
  parse_members-quote g ms p s h = rw (parse_key-quote p s h)

  parse_value-quote :
      (g : ℕ) (p s : Bytes)
      → all_plain p ≡ true
      → parse_value F (suc (suc g)) (b'{' ∷ b'"' ∷ (p ++ b'"' ∷ b'"' ∷ s))
        ≡ failed (expected b':' b'"') s
  unfolding choose peek_char
  parse_value-quote g p s h = rw (
    parse_value-opens F (suc g) (b'{' ∷ b'"' ∷ (p ++ b'"' ∷ b'"' ∷ s)) refl,
    parse_object-quote (parse_members F (suc g) no_members) (p ++ b'"' ∷ b'"' ∷ s),
    parse_members-quote g no_members p s h,
  )

  parse_document-quote :
      (fuel : ℕ) (p s : Bytes)
      → 1 < fuel
      → all_plain p ≡ true
      → parse_document F fuel (b'{' ∷ b'"' ∷ (p ++ b'"' ∷ b'"' ∷ s)) ≡ failed (expected b':' b'"') s
  unfolding parse_document
  parse_document-quote fuel p s h k =
      let e : fuel ≡ suc (suc (fuel - 2)) = omega arith in
      rw (e, parse_value-quote (fuel - 2) p s k)

  parse_eq : (s : Bytes) → parse F s ≡ parse_document F (2 * length s + 1) (skip_space s)
  unfolding parse
  parse_eq s = refl

  -- A key that ends in a quote is written as it is: whatever its other bytes, if they are plain, and
  -- whatever the members, Parse refuses the text of the object.
  pub parse-key_with_quote :
      (p : Bytes) (v : JsonValue D) (ms : Members D)
      → all_plain p ≡ true
      → parse F (to_string F (object (member (p ++ b'"' ∷ []) v ms)))
        ≡ failed
            (expected b':' b'"')
            (b':' ∷ b' ' ∷ (to_string F v ++ (members_text F false ms ++ b'}' ∷ [])))
  parse-key_with_quote p v ms h =
      let s : Bytes = b':' ∷ b' ' ∷ (to_string F v ++ (members_text F false ms ++ b'}' ∷ [])) in
      let text : to_string F (object (member (p ++ b'"' ∷ []) v ms))
          ≡ b'{' ∷ b'"' ∷ (p ++ b'"' ∷ b'"' ∷ s) =
        unfold to_string in simp append_assoc in
      rw (text, parse_eq (b'{' ∷ b'"' ∷ (p ++ b'"' ∷ b'"' ∷ s)))
        (unfold skip_space in parse_document-quote _ p s (omega arith) h)
