-- ===== src/Wrapper/Util/History.antt =====
-- Histories of changes of an Option of docs/util/OptionResult.hpp.
use selfserv.Base.{◌≡◌, refl, subst, Bool, true, false, Option, none, some, List, [], ◌∷◌}
use selfserv.Wrapper.Storage.{Effect, done, thrown, fault}
use selfserv.Wrapper.Util.{Copying}
use selfserv.Wrapper.Util.Maybe.{Holder, empty_holder, reset_holder, replace, assign_holder}
use selfserv.Wrapper.Util.Assigned.{
  IsHeld, held, assigned, IsLeft, assign_holder-IsLeft, replace-fields, reset_lem,
}

-- The calls that change an Option.
pub data Change (A : Type 0) : Type 0 where
  resetting : Change A
  replacing : A → Change A
  assigning : Holder A → Change A

module _ {A : Type 0} where
  abbrev pub change : Copying A → Holder A → Change A → Effect (Holder A)
  change c o resetting = reset_holder o
  change c o (replacing v) = replace c o v
  change c o (assigning other) = assign_holder c false o other

  -- Changes one behind the other, where the caller goes on behind an exception.
  abbrev pub go_on : (Holder A → Option (Holder A)) → Effect (Holder A) → Option (Holder A)
  go_on f (done o) = f o
  go_on f (thrown o) = f o
  go_on f fault = none

  unfoldable pub changes : Copying A → Holder A → List (Change A) → Option (Holder A)
  changes c o [] = some o
  changes c o (x ∷ xs) = go_on (λ t. changes c t xs) (change c o x)

  abbrev pub change_value : Copying A → Option A → Change A → Option A
  change_value c o resetting = none
  change_value c o (replacing v) = (assigned c o (some v)).0
  change_value c o (assigning other) = (assigned c o (held other)).0

  unfoldable pub change_values : Copying A → Option A → List (Change A) → Option A
  change_values c o [] = o
  change_values c o (x ∷ xs) = change_values c (change_value c o x) xs

  -- The Options that are assigned are valid themselves.
  abbrev pub AreHeld : List (Change A) → Type 0
  AreHeld [] = Unit
  AreHeld (assigning other ∷ xs) = IsHeld other × AreHeld xs
  AreHeld (_ ∷ xs) = AreHeld xs

  abbrev pub SomeHeld : Option A → Option (Holder A) → Type 0
  SomeHeld o none = ⊥
  SomeHeld o (some t) = IsHeld t × (held t ≡ o) × (reset_holder t ≡ done empty_holder)

  go_on-IsLeft :
      (o : Option A) (p : Option A × Bool) (f : Holder A → Option (Holder A))
      (e : Effect (Holder A))
      → IsLeft p e
      → ((t : Holder A) → IsHeld t → held t ≡ p.0 → SomeHeld o (f t))
      → SomeHeld o (go_on f e)
  go_on-IsLeft o (q, false) f (done t) h k = k t h.0 h.1
  go_on-IsLeft o (q, true) f (thrown t) h k = k t h.0 h.1
  go_on-IsLeft o (q, true) f (done t) h k = absurd h
  go_on-IsLeft o (q, false) f (thrown t) h k = absurd h
  go_on-IsLeft o (q, true) f fault h k = absurd h
  go_on-IsLeft o (q, false) f fault h k = absurd h

  -- However an Option is reset, replaced and assigned to, with copies and assignments of its value
  -- type that throw or not, and its callers going on behind an exception: no change has undefined
  -- behaviour; the Option stands for the optional value that the same changes make of the one it
  -- stood for; and its destructor ends it cleanly.
  pub changes-SomeHeld :
      (c : Copying A) (o : Holder A) (xs : List (Change A))
      → IsHeld o
      → AreHeld xs
      → SomeHeld (change_values c (held o) xs) (changes c o xs)
  unfolding changes change_values
  changes-SomeHeld c o [] h k = (h, refl, reset_lem o h)
  changes-SomeHeld c o (resetting ∷ xs) h k =
      rw (reset_lem o h) (changes-SomeHeld c empty_holder xs tt k)
  changes-SomeHeld c o (replacing v ∷ xs) h k =
      go_on-IsLeft _ (assigned c (held o) (some v)) (λ t. changes c t xs) (replace c o v)
        (replace-fields c o.m_store o.m_has v h)
        (λ t i e.
          subst (λ q. SomeHeld (change_values c q xs) (changes c t xs)) e
            (changes-SomeHeld c t xs i k))
  changes-SomeHeld c o (assigning other ∷ xs) h k =
      go_on-IsLeft _ (assigned c (held o) (held other)) (λ t. changes c t xs)
        (assign_holder c false o other) (assign_holder-IsLeft c false o other h k.0)
        (λ t i e.
          subst (λ q. SomeHeld (change_values c q xs) (changes c t xs)) e
            (changes-SomeHeld c t xs i k.1))
