-- ===== src/Json/ParsedOrder.antt =====
-- Whatever Parse returns has its objects ordered, and so Clone keeps it.
use selfserv.Base.{ℕ, zero, suc, ◌+◌, ◌*◌, length, subst, ◌≡◌, true, false, [], ◌∷◌, Bytes, arith}
use selfserv.Json.Value.{
  JsonValue, Values, Members, null, bool, string, number, array, object, no_values, no_members,
  add_value, set_value, clone,
}
use selfserv.Json.Floats.{Floats}
use selfserv.Json.Objects.{set_value-Sorted}
use selfserv.Json.Ordered.{
  IsOrdered, AreOrdered, AreOrdered-add_value, MembersOrdered-set_value, clone_lem,
}
use selfserv.Json.Parser.{
  Result, Parser, ok, failed, out_of_fuel, bind, skip_space, peek_char, parse_string_literal,
}
use selfserv.Json.Number.{parse_number_literal}
use selfserv.Json.Document.{
  parse_null, parse_bool, parse_string, parse_array, parse_object, parse_key, parse_number, choose,
  parse_value, parse_items, parse_members, finish, parse_document, parse,
}
use selfserv.Json.Yields.{
  Yields, Yields-bind, any-Yields, IsAtom, ObjectOrdered, parse_array-Yields, parse_object-Yields,
  after_item-Yields, after_member-Yields,
}

-- The values that hold no other value have any property that holds of all such.
module _ {D : Type 0} (P : JsonValue D → Type 0) (atom : (v : JsonValue D) → IsAtom v → P v) where
  parse_null-Yields : (s : Bytes) → Yields P (parse_null s)
  unfolding parse_null
  parse_null-Yields s = ground (arith, atom null tt)

  parse_bool-Yields : (s : Bytes) → Yields P (parse_bool s)
  unfolding parse_bool
  parse_bool-Yields s = ground (arith, atom (bool true) tt, atom (bool false) tt)

  parse_string-Yields : (s : Bytes) → Yields P (parse_string s)
  unfolding parse_string
  parse_string-Yields s =
      Yields-bind {P = λ _. Unit {0}} P (parse_string_literal s) _ (any-Yields _)
        λ t _ _. atom (string t) tt

  parse_number-Yields : (F : Floats D) (s : Bytes) → Yields P (parse_number F s)
  unfolding parse_number
  parse_number-Yields F s =
      Yields-bind {P = λ _. Unit {0}} P (parse_number_literal F s) _ (any-Yields _)
        λ d _ _. atom (number d) tt

  choose-Yields :
      (F : Floats D) (arrays objects : Parser (JsonValue D)) (c : ℕ) (s : Bytes)
      → Yields P (arrays s)
      → Yields P (objects s)
      → Yields P (choose F arrays objects c s)
  unfolding choose
  choose-Yields F arrays objects c s ha ho = ground (
    arith,
    parse_null-Yields s,
    parse_bool-Yields s,
    parse_string-Yields s,
    parse_number-Yields F s,
  )

module _ {D : Type 0} where
  atom-IsOrdered : (v : JsonValue D) → IsAtom v → IsOrdered v
  atom-IsOrdered (array vs) a = absurd a
  atom-IsOrdered (object ms) a = absurd a
  atom-IsOrdered null a = tt
  atom-IsOrdered (bool b) a = tt
  atom-IsOrdered (number d) a = tt
  atom-IsOrdered (string t) a = tt

module _ {D : Type 0} (F : Floats D) where
  dispatch-Yields :
      (items : Parser (Values D)) (members : Parser (Members D)) (s : Bytes)
      → ((t : Bytes) → Yields AreOrdered (items t))
      → ((t : Bytes) → Yields ObjectOrdered (members t))
      → Yields IsOrdered
          (bind (peek_char s) λ (c, t). choose F (parse_array items) (parse_object members) c t)
  unfolding peek_char
  dispatch-Yields items members [] hi hm = tt
  dispatch-Yields items members (c ∷ cs) hi hm =
      choose-Yields IsOrdered atom-IsOrdered F (parse_array items) (parse_object members) c (c ∷ cs)
        (parse_array-Yields items (c ∷ cs) hi) (parse_object-Yields members (c ∷ cs) hm)

  mutual
    unfolding parse_value

    parse_value-Yields : (f : ℕ) (s : Bytes) → Yields IsOrdered (parse_value F f s)
    parse_value-Yields zero s = tt
    parse_value-Yields (suc f) s =
        dispatch-Yields (parse_items F f no_values) (parse_members F f no_members) (skip_space s)
          (λ t. parse_items-Yields f no_values t tt)
          (λ t. parse_members-Yields f no_members t (tt, tt))

    parse_items-Yields :
        (f : ℕ) (vs : Values D) (s : Bytes)
        → AreOrdered vs
        → Yields AreOrdered (parse_items F f vs s)
    parse_items-Yields zero vs s o = tt
    parse_items-Yields (suc f) vs s o =
        Yields-bind {P = IsOrdered} AreOrdered (parse_value F f s) _ (parse_value-Yields f s)
          λ v t h.
            let more = AreOrdered-add_value vs v o h in
            after_item-Yields AreOrdered (parse_items F f) (add_value vs v) (skip_space t) more
              λ u. parse_items-Yields f (add_value vs v) u more

    parse_members-Yields :
        (f : ℕ) (ms : Members D) (s : Bytes)
        → ObjectOrdered ms
        → Yields ObjectOrdered (parse_members F f ms s)
    parse_members-Yields zero ms s o = tt
    parse_members-Yields (suc f) ms s o =
        Yields-bind {P = λ _. Unit {0}} ObjectOrdered (parse_key s) _ (any-Yields (parse_key s))
          λ k t _.
            Yields-bind {P = IsOrdered} ObjectOrdered (parse_value F f t) _ (parse_value-Yields f t)
              λ v u h.
                let more : ObjectOrdered (set_value k v ms) =
                  (set_value-Sorted k v ms o.0, MembersOrdered-set_value k v ms o.1 h) in
                after_member-Yields ObjectOrdered (parse_members F f) (set_value k v ms)
                  (skip_space u) more λ w. parse_members-Yields f (set_value k v ms) w more

  finish-eq-ok : (v : JsonValue D) (s : Bytes) {w : JsonValue D} → finish F v s ≡ ok w → v ≡ w
  unfolding finish
  finish-eq-ok v [] e = cc
  finish-eq-ok v (c ∷ cs) e = cc

  end-IsOrdered :
      (r : Result (JsonValue D × Bytes)) {w : JsonValue D}
      → Yields IsOrdered r
      → bind r (λ (v, rest). finish F v (skip_space rest)) ≡ ok w
      → IsOrdered w
  end-IsOrdered (ok (v, rest)) h e = subst IsOrdered (finish-eq-ok v (skip_space rest) e) h
  end-IsOrdered (failed _ _) h e = cc
  end-IsOrdered out_of_fuel h e = cc

  parse_document-IsOrdered :
      (fuel : ℕ) (s : Bytes) {v : JsonValue D} → parse_document F fuel s ≡ ok v → IsOrdered v
  unfolding parse_document
  parse_document-IsOrdered fuel [] e = cc
  parse_document-IsOrdered fuel (c ∷ cs) e =
      end-IsOrdered (parse_value F fuel (c ∷ cs)) (parse_value-Yields fuel (c ∷ cs)) e

  -- The keys of every object that Parse returns, at every depth, are in strictly rising order.
  pub parse-IsOrdered : (json : Bytes) {v : JsonValue D} → parse F json ≡ ok v → IsOrdered v
  unfolding parse
  parse-IsOrdered json = parse_document-IsOrdered (2 * length json + 1) (skip_space json)

  -- Clone gives an equal value for whatever Parse returned.
  pub clone-parse : (json : Bytes) {v : JsonValue D} → parse F json ≡ ok v → clone v ≡ v
  clone-parse json {v} e = clone_lem v (parse-IsOrdered json e)
