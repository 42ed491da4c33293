-- ===== src/Json/Yields.antt =====
-- What holds of the values that the parsers of arrays and objects return.
use selfserv.Base.{[], ◌∷◌, Bytes, arith}
use selfserv.Json.Value.{JsonValue, Values, Members, array, object}
use selfserv.Json.Objects.{Sorted}
use selfserv.Json.Ordered.{IsOrdered, AreOrdered, MembersOrdered}
use selfserv.Json.Parser.{Result, Parser, ok, failed, out_of_fuel, bind, skip_space}
use selfserv.Json.Document.{
  parse_array, array_body, another_item, after_item, parse_object, object_body, another_member,
  after_member,
}

-- The value of a run that succeeds has the property.
abbrev pub Yields : {A : Type 0} → (A → Type 0) → Result (A × Bytes) → Type 0
Yields P (ok (a, rest)) = P a
Yields P (failed _ _) = Unit
Yields P out_of_fuel = Unit

pub Yields-bind :
    {A B : Type 0} {P : A → Type 0} (Q : B → Type 0) (r : Result (A × Bytes))
    (f : A × Bytes → Result (B × Bytes))
    → Yields P r
    → ((a : A) (rest : Bytes) → P a → Yields Q (f (a, rest)))
    → Yields Q (bind r f)
Yields-bind Q (ok (a, rest)) f h k = k a rest h
Yields-bind Q (failed _ _) f h k = tt
Yields-bind Q out_of_fuel f h k = tt

pub any-Yields : {A : Type 0} (r : Result (A × Bytes)) → Yields (λ _. Unit {0}) r
any-Yields (ok (a, t)) = tt
any-Yields (failed _ _) = tt
any-Yields out_of_fuel = tt

abbrev pub IsAtom : {D : Type 0} → JsonValue D → Type 0
IsAtom (array vs) = ⊥
IsAtom (object ms) = ⊥
IsAtom _ = Unit {0}

module _ {D : Type 0} where
  abbrev pub ObjectOrdered : Members D → Type 0
  ObjectOrdered ms = Sorted ms × MembersOrdered ms

  array_body-Yields :
      (items : Parser (Values D)) (s : Bytes)
      → Yields AreOrdered (items s)
      → Yields IsOrdered (array_body items s)
  unfolding array_body
  array_body-Yields items [] h = tt
  array_body-Yields items (c ∷ cs) h = ground arith

  pub parse_array-Yields :
      (items : Parser (Values D)) (s : Bytes)
      → ((t : Bytes) → Yields AreOrdered (items t))
      → Yields IsOrdered (parse_array items s)
  unfolding parse_array
  parse_array-Yields items [] h = tt
  parse_array-Yields items (c ∷ cs) h =
      ground (arith, array_body-Yields items (skip_space cs) (h (skip_space cs)))

  object_body-Yields :
      (members : Parser (Members D)) (s : Bytes)
      → Yields ObjectOrdered (members s)
      → Yields IsOrdered (object_body members s)
  unfolding object_body
  object_body-Yields members [] h = tt
  object_body-Yields members (c ∷ cs) h = ground arith

  pub parse_object-Yields :
      (members : Parser (Members D)) (s : Bytes)
      → ((t : Bytes) → Yields ObjectOrdered (members t))
      → Yields IsOrdered (parse_object members s)
  unfolding parse_object
  parse_object-Yields members [] h = tt
  parse_object-Yields members (c ∷ cs) h =
      ground (arith, object_body-Yields members (skip_space cs) (h (skip_space cs)))

  another_item-Yields :
      (P : Values D → Type 0) (again : Parser (Values D)) (s : Bytes)
      → Yields P (again s)
      → Yields P (another_item again s)
  unfolding another_item
  another_item-Yields P again [] h = tt
  another_item-Yields P again (c ∷ cs) h = ground arith

  pub after_item-Yields :
      (P : Values D → Type 0) (again : Values D → Parser (Values D)) (vs : Values D) (s : Bytes)
      → P vs
      → ((t : Bytes) → Yields P (again vs t))
      → Yields P (after_item again vs s)
  unfolding after_item
  after_item-Yields P again vs [] o h = tt
  after_item-Yields P again vs (c ∷ cs) o h =
      ground (arith, another_item-Yields P (again vs) (skip_space cs) (h (skip_space cs)))

  another_member-Yields :
      (P : Members D → Type 0) (again : Parser (Members D)) (s : Bytes)
      → Yields P (again s)
      → Yields P (another_member again s)
  unfolding another_member
  another_member-Yields P again [] h = tt
  another_member-Yields P again (c ∷ cs) h = ground arith

  pub after_member-Yields :
      (P : Members D → Type 0) (again : Members D → Parser (Members D)) (ms : Members D) (s : Bytes)
      → P ms
      → ((t : Bytes) → Yields P (again ms t))
      → Yields P (after_member again ms s)
  unfolding after_member
  after_member-Yields P again ms [] o h = tt
  after_member-Yields P again ms (c ∷ cs) o h =
      ground (arith, another_member-Yields P (again ms) (skip_space cs) (h (skip_space cs)))
