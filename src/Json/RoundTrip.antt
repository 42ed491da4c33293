-- ===== src/Json/RoundTrip.antt =====
-- ToString of src/json, and Parse on what it has written.
use selfserv.Base.{
  ℕ, ◌+◌, ◌*◌, ◌<◌, ◌≡◌, refl, true, false, [], ◌∷◌, ◌++◌, Bytes, length, arith, append-nil,
}
use selfserv.Json.Value.{
  JsonValue, Values, Members, array, object, no_values, value, no_members, member, add_value,
}
use selfserv.Json.Floats.{Floats}
use selfserv.Json.Print.{to_string, values_text, members_text}
use selfserv.Json.Parser.{Result, ok, bind, skip_space}
use selfserv.Json.Numeral.{ends}
use selfserv.Json.Literal.{all_plain}
use selfserv.Json.Objects.{Sorted, Precede, append_member, set_value-Precede, Follow→Sorted}
use selfserv.Json.Ordered.{
  append_values, append_members, append_values-no_values, append_members-no_members, Meets,
  Meets-append_member,
}
use selfserv.Json.Document.{
  after_item, after_member, parse_value, parse_items, parse_members, finish, parse_document, parse,
}
use selfserv.Json.Writable.{IsWritable, AreWritable, MembersWritable, opens}
use selfserv.Json.Steps.{
  skip_space-opens, after_item-comma, after_item-close, after_member-comma, after_member-close,
}
use selfserv.Json.Texts.{
  length-append_bytes, with_fuel, opens-to_string, ends-values_text, ends-members_text, items_step,
  members_step, array_step, object_step, atom_reads, values_end, members_end, array_text,
  values_text-cons, member_text, object_text, members_text-cons, length-array, length-object,
}

ruleset lengths = (arith, length-append_bytes)

module _ {D : Type 0} (F : Floats D) where
  items_from :
      (v : JsonValue D) (acc : Values D) (s : Bytes) (m n f : ℕ) {r : Result (Values D × Bytes)}
      → ((g : ℕ) → m < g → parse_value F g (to_string F v ++ s) ≡ ok (v, s))
      → ((g : ℕ) → n < g → after_item (parse_items F g) (add_value acc v) (skip_space s) ≡ r)
      → m + n + 1 < f
      → parse_items F f acc (to_string F v ++ s) ≡ r
  items_from v acc s m n f {r} first others h =
      with_fuel (λ f. parse_items F f acc (to_string F v ++ s) ≡ r)
        (λ g hg.
          items_step F g acc v (to_string F v ++ s) s (first g (omega arith))
            (others g (omega arith)))
        f h

  members_from :
      (k : Bytes) (v : JsonValue D) (acc : Members D) (s : Bytes) (m n f : ℕ)
      {r : Result (Members D × Bytes)}
      → all_plain k ≡ true
      → Precede acc k
      → ((g : ℕ) → m < g → parse_value F g (to_string F v ++ s) ≡ ok (v, s))
      → ((g : ℕ)
          → n < g
          → after_member (parse_members F g) (append_member acc k v) (skip_space s) ≡ r)
      → m + n + 1 < f
      → parse_members F f acc (member_text F k (to_string F v ++ s)) ≡ r
  members_from k v acc s m n f {r} plain p first others h =
      with_fuel (λ f. parse_members F f acc (member_text F k (to_string F v ++ s)) ≡ r)
        (λ g hg.
          members_step F g acc k v (to_string F v ++ s) s plain (first g (omega arith))
            (rw (set_value-Precede k v acc p) (others g (omega arith))))
        f h

  mutual
    unfolding to_string

    value_reads :
        (v : JsonValue D) (f : ℕ) (rest : Bytes)
        → IsWritable F v
        → ends rest ≡ true
        → 2 * length (to_string F v) < f
        → parse_value F f (to_string F v ++ rest) ≡ ok (v, rest)
    value_reads (array (value v vs)) f rest w e h =
        rw (array_text F v vs rest, ← append_values-no_values (value v vs))
          (with_fuel
            (λ f.
              parse_value F f (b'[' ∷ (to_string F v ++ values_end F vs rest))
              ≡ ok (array (append_values no_values (value v vs)), rest))
            (λ g hg.
              array_step F g (to_string F v ++ values_end F vs rest) rest _
                (opens-to_string F v (values_end F vs rest) w.0)
                (items_from v no_values (values_end F vs rest) (2 * length (to_string F v))
                  (2 * length (values_text F false vs)) g
                  (λ g'. value_reads v g' (values_end F vs rest) w.0 (ends-values_text F vs rest))
                  (λ g'. values_read vs (add_value no_values v) g' rest w.1)
                  (omega (arith, length-array F v vs))))
            f h)
    value_reads (object (member k v ms)) f rest w e h =
        rw (object_text F k v ms rest, ← append_members-no_members (member k v ms))
          (with_fuel
            (λ f.
              parse_value F f (b'{' ∷ member_text F k (to_string F v ++ members_end F ms rest))
              ≡ ok (object (append_members no_members (member k v ms)), rest))
            (λ g hg. object_step F g _ rest _ (
              members_from k v no_members (members_end F ms rest) (2 * length (to_string F v))
                (2 * length (members_text F false ms)) g w.1.0 tt
                (λ g'. value_reads v g' (members_end F ms rest) w.1.1 (ends-members_text F ms rest))
                (λ g'.
                  members_read ms (append_member no_members k v) g' rest (Follow→Sorted k ms w.0)
                    (Meets-append_member no_members k v ms tt w.0) w.1.2)
                (omega (arith, length-object F k v ms))))
            f h)
    value_reads v f rest w e h =
        with_fuel (λ f. parse_value F f (to_string F v ++ rest) ≡ ok (v, rest))
          (λ g hg. atom_reads F v g rest tt w e) f h

    values_read :
        (vs acc : Values D) (f : ℕ) (rest : Bytes)
        → AreWritable F vs
        → 2 * length (values_text F false vs) < f
        → after_item (parse_items F f) acc (skip_space (values_text F false vs ++ b']' ∷ rest))
          ≡ ok (append_values acc vs, rest)
    values_read no_values acc f rest w h = after_item-close (parse_items F f) acc rest
    values_read (value v vs) acc f rest w h =
        rw
          (
            values_text-cons F v vs rest,
            after_item-comma (parse_items F f) acc (to_string F v ++ values_end F vs rest)
                (opens-to_string F v (values_end F vs rest) w.0),
          )
          (items_from v acc (values_end F vs rest) (2 * length (to_string F v))
            (2 * length (values_text F false vs)) f
            (λ g. value_reads v g (values_end F vs rest) w.0 (ends-values_text F vs rest))
            (λ g. values_read vs (add_value acc v) g rest w.1) (omega lengths))

    members_read :
        (ms acc : Members D) (f : ℕ) (rest : Bytes)
        → Sorted ms
        → Meets acc ms
        → MembersWritable F ms
        → 2 * length (members_text F false ms) < f
        → after_member (parse_members F f) acc (skip_space (members_text F false ms ++ b'}' ∷ rest))
          ≡ ok (append_members acc ms, rest)
    members_read no_members acc f rest s m w h = after_member-close (parse_members F f) acc rest
    members_read (member k v ms) acc f rest s m w h =
        rw (members_text-cons F k v ms rest, after_member-comma (parse_members F f) acc _)
          (members_from k v acc (members_end F ms rest) (2 * length (to_string F v))
            (2 * length (members_text F false ms)) f w.0 m
            (λ g. value_reads v g (members_end F ms rest) w.1 (ends-members_text F ms rest))
            (λ g.
              members_read ms (append_member acc k v) g rest (Follow→Sorted k ms s)
                (Meets-append_member acc k v ms m s) w.2)
            (omega lengths))

  -- With enough fuel ParseValue reads a written value off the front of any input that does not go
  -- on with a character of a numeral, and leaves the rest.
  pub parse_value-to_string :
      (v : JsonValue D) (f : ℕ) (rest : Bytes)
      → IsWritable F v
      → ends rest ≡ true
      → 2 * length (to_string F v) < f
      → parse_value F f (to_string F v ++ rest) ≡ ok (v, rest)
  parse_value-to_string = value_reads

  parse_document-opens :
      (fuel : ℕ) (s : Bytes)
      → opens s ≡ true
      → parse_document F fuel s
        ≡ bind (parse_value F fuel s) λ (v, rest). finish F v (skip_space rest)
  unfolding parse_document
  parse_document-opens fuel [] h = cc
  parse_document-opens fuel (c ∷ cs) h = refl

  -- Parse reads back what ToString wrote, for values whose doubles are exact, whose strings are
  -- of the bytes from 32 to 127, newlines, carriage returns and tabs, whose keys are plain and whose objects have their keys in rising order.
  pub parse-to_string : (v : JsonValue D) → IsWritable F v → parse F (to_string F v) ≡ ok v
  unfolding parse finish
  parse-to_string v w =
      let text : Bytes = to_string F v in
      let o : opens text ≡ true = rw append-nil at (opens-to_string F v [] w) in
      let whole = parse_value-to_string v (2 * length text + 1) [] w refl (omega arith) in
      rw (
        skip_space-opens text o,
        parse_document-opens (2 * length text + 1) text o,
        rw append-nil at whole,
      )
