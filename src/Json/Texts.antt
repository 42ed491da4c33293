-- ===== src/Json/Texts.antt =====
-- The texts that ToString writes, and the steps of the parser on them.
use selfserv.Base.{
  ℕ, zero, suc, ◌+◌, ◌<◌, ◌≤◌, ◌≡◌, refl, true, false, [], ◌∷◌, ◌++◌, Bytes, length, length-append,
  arith, append_assoc,
}
use selfserv.Json.Value.{
  JsonValue, Values, Members, null, bool, number, string, array, object, no_values, value,
  no_members, member, add_value, set_value,
}
use selfserv.Json.Floats.{Floats}
use selfserv.Json.Print.{to_string, values_text, members_text}
use selfserv.Json.Parser.{Result, ok, skip_space, peek_char}
use selfserv.Json.Numeral.{ends}
use selfserv.Json.Literal.{all_plain}
use selfserv.Json.Document.{
  choose, after_item, after_member, parse_value, parse_items, parse_members,
}
use selfserv.Json.Writable.{IsWritable, opens}
use selfserv.Json.Steps.{
  parse_key-plain, parse_array-opens, parse_object-quote, opens-IsNumeral, parse_value-opens,
  parse_value-space, parse_value-number, parse_value-string,
}

pub length-append_bytes : (xs ys : Bytes) → length (xs ++ ys) ≡ length xs + length ys
length-append_bytes = length-append

-- Fuel above a bound is a successor.
pub with_fuel {ℓ} :
    {n : ℕ} (P : ℕ → Type ℓ) → ((g : ℕ) → n < suc g → P (suc g)) → (f : ℕ) → n < f → P f
with_fuel P k zero h = absurd (omega arith)
with_fuel P k (suc g) h = k g h

ruleset lengths = (arith, length-append_bytes)

module _ {D : Type 0} (F : Floats D) where
  pub opens-to_string :
      (v : JsonValue D) (rest : Bytes) → IsWritable F v → opens (to_string F v ++ rest) ≡ true
  unfolding to_string
  opens-to_string null rest h = refl
  opens-to_string (bool true) rest h = refl
  opens-to_string (bool false) rest h = refl
  opens-to_string (number d) rest h = opens-IsNumeral h.numeral rest
  opens-to_string (string s) rest h = refl
  opens-to_string (array vs) rest h = refl
  opens-to_string (object ms) rest h = refl

  pub ends-values_text :
      (vs : Values D) (rest : Bytes) → ends (values_text F false vs ++ b']' ∷ rest) ≡ true
  unfolding values_text
  ends-values_text no_values rest = refl
  ends-values_text (value v vs) rest = refl

  pub ends-members_text :
      (ms : Members D) (rest : Bytes) → ends (members_text F false ms ++ b'}' ∷ rest) ≡ true
  unfolding members_text
  ends-members_text no_members rest = refl
  ends-members_text (member k v ms) rest = refl

  pub items_step :
      (g : ℕ) (acc : Values D) (v : JsonValue D) (s t : Bytes) {r : Result (Values D × Bytes)}
      → parse_value F g s ≡ ok (v, t)
      → after_item (parse_items F g) (add_value acc v) (skip_space t) ≡ r
      → parse_items F (suc g) acc s ≡ r
  unfolding parse_items
  items_step g acc v s t p q = rw p q

  pub members_step :
      (g : ℕ) (acc : Members D) (k : Bytes) (v : JsonValue D) (s t : Bytes)
      {r : Result (Members D × Bytes)}
      → all_plain k ≡ true
      → parse_value F g s ≡ ok (v, t)
      → after_member (parse_members F g) (set_value k v acc) (skip_space t) ≡ r
      → parse_members F (suc g) acc (b'"' ∷ (k ++ b'"' ∷ b':' ∷ b' ' ∷ s)) ≡ r
  unfolding parse_members
  members_step g acc k v s t w p q =
      rw (parse_key-plain k (b' ' ∷ s) w, parse_value-space F g s, p) q

  pub array_step :
      (g : ℕ) (s rest : Bytes) (vs : Values D)
      → opens s ≡ true
      → parse_items F g no_values s ≡ ok (vs, rest)
      → parse_value F (suc g) (b'[' ∷ s) ≡ ok (array vs, rest)
  unfolding choose peek_char
  array_step g s rest vs o p =
      rw (
        parse_value-opens F g (b'[' ∷ s) refl,
        parse_array-opens (parse_items F g no_values) s o,
        p,
      )

  pub object_step :
      (g : ℕ) (s rest : Bytes) (ms : Members D)
      → parse_members F g no_members (b'"' ∷ s) ≡ ok (ms, rest)
      → parse_value F (suc g) (b'{' ∷ b'"' ∷ s) ≡ ok (object ms, rest)
  unfolding choose peek_char
  object_step g s rest ms p = rw (
    parse_value-opens F g (b'{' ∷ b'"' ∷ s) refl,
    parse_object-quote (parse_members F g no_members) s,
    p,
  )

  -- The values whose text holds no other value.
  abbrev IsAtom : JsonValue D → Type 0
  IsAtom (array (value v vs)) = ⊥
  IsAtom (object (member k v ms)) = ⊥
  IsAtom _ = Unit {0}

  pub atom_reads :
      (v : JsonValue D) (g : ℕ) (rest : Bytes)
      → IsAtom v
      → IsWritable F v
      → ends rest ≡ true
      → parse_value F (suc g) (to_string F v ++ rest) ≡ ok (v, rest)
  unfolding to_string
  atom_reads null g rest a w e = unfold parse_value skip_space in refl
  atom_reads (bool true) g rest a w e = unfold parse_value skip_space in refl
  atom_reads (bool false) g rest a w e = unfold parse_value skip_space in refl
  atom_reads (number d) g rest a w e = parse_value-number F g d rest w e
  atom_reads (string s) g rest a w e = parse_value-string F g s rest w
  atom_reads (array no_values) g rest a w e = unfold parse_value skip_space in refl
  atom_reads (array (value v vs)) g rest a w e = absurd a
  atom_reads (object no_members) g rest a w e = unfold parse_value skip_space in refl
  atom_reads (object (member k v ms)) g rest a w e = absurd a

  -- What follows a value in the text of an array, and of an object.
  abbrev pub values_end : Values D → Bytes → Bytes
  values_end vs rest = values_text F false vs ++ b']' ∷ rest

  abbrev pub members_end : Members D → Bytes → Bytes
  members_end ms rest = members_text F false ms ++ b'}' ∷ rest

  pub array_text :
      (v : JsonValue D) (vs : Values D) (rest : Bytes)
      → to_string F (array (value v vs)) ++ rest ≡ b'[' ∷ (to_string F v ++ values_end vs rest)
  unfolding to_string
  array_text v vs rest = simp append_assoc

  pub values_text-cons :
      (v : JsonValue D) (vs : Values D) (rest : Bytes)
      → values_end (value v vs) rest ≡ b',' ∷ b' ' ∷ (to_string F v ++ values_end vs rest)
  unfolding to_string
  values_text-cons v vs rest = simp append_assoc

  abbrev pub member_text : Bytes → Bytes → Bytes
  member_text k s = b'"' ∷ (k ++ b'"' ∷ b':' ∷ b' ' ∷ s)

  pub object_text :
      (k : Bytes) (v : JsonValue D) (ms : Members D) (rest : Bytes)
      → to_string F (object (member k v ms)) ++ rest
        ≡ b'{' ∷ member_text k (to_string F v ++ members_end ms rest)
  unfolding to_string
  object_text k v ms rest = simp append_assoc

  pub members_text-cons :
      (k : Bytes) (v : JsonValue D) (ms : Members D) (rest : Bytes)
      → members_end (member k v ms) rest
        ≡ b',' ∷ b' ' ∷ member_text k (to_string F v ++ members_end ms rest)
  unfolding to_string
  members_text-cons k v ms rest = simp append_assoc

  pub length-array :
      (v : JsonValue D) (vs : Values D)
      → length (to_string F (array (value v vs)))
        ≡ length (to_string F v) + length (values_text F false vs) + 2
  unfolding to_string
  length-array v vs = omega (
    arith,
    length-append_bytes (to_string F v ++ values_text F false vs) (b']' ∷ []),
    length-append_bytes (to_string F v) (values_text F false vs),
  )

  pub length-object :
      (k : Bytes) (v : JsonValue D) (ms : Members D)
      → length (to_string F v) + length (members_text F false ms) + 2
        ≤ length (to_string F (object (member k v ms)))
  unfolding to_string
  length-object k v ms =
      let text : Bytes = to_string F v ++ members_text F false ms in
      omega (
        arith,
        length-append_bytes (b'"' ∷ (k ++ b'"' ∷ b':' ∷ b' ' ∷ text)) (b'}' ∷ []),
        length-append_bytes k (b'"' ∷ b':' ∷ b' ' ∷ text),
        length-append_bytes (to_string F v) (members_text F false ms),
      )
