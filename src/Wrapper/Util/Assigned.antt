-- ===== src/Wrapper/Util/Assigned.antt =====
-- What operator=, Replace and Reset leave of an Option of docs/util/OptionResult.hpp, with copies and
-- assignments that may throw, and operator= beside the one of src/option/option.hpp.
use selfserv.Base.{◌≡◌, refl, sym, ap, ◌∙◌, subst, Bool, true, false, Option, none, some}
use selfserv.Wrapper.Storage.{Storage, raw, live, Effect, done, thrown, fault, built}
use selfserv.Wrapper.Maybe.{OptionObject, assign_option}
use selfserv.Wrapper.Assign.{IsValidOption, option_of, copied, IsAssigned, assign_option-IsAssigned}
use selfserv.Wrapper.Util.{Copying}
use selfserv.Wrapper.Util.Maybe.{
  Holder, empty_holder, left_by, with_store, then_has, reset_holder, replace, assign_holder,
}

module _ {A : Type 0} where
  abbrev pub IsHeld : Holder A → Type 0
  IsHeld o = IsValidOption o.m_store o.m_has

  abbrev pub held : Holder A → Option A
  held o = option_of o.m_store

  abbrev copied_over : Option A → Option A × Bool
  copied_over none = (none, true)
  copied_over (some v) = (some v, false)

  abbrev over : A × Bool → Option A × Bool
  over (v, b) = (some v, b)

  -- What an assignment leaves of an optional value, and whether it throws.
  abbrev pub assigned : Copying A → Option A → Option A → Option A × Bool
  assigned c o none = (none, false)
  assigned c none (some v) = copied_over (c.copy v)
  assigned c (some w) (some v) = over (c.assign w v)

  -- The object is there, returned or left by an exception, and stands for the optional value.
  abbrev pub IsLeft : Option A × Bool → Effect (Holder A) → Type 0
  IsLeft (o, false) (done t) = IsHeld t × (held t ≡ o)
  IsLeft (o, true) (thrown t) = IsHeld t × (held t ≡ o)
  IsLeft _ _ = ⊥

  copied-IsLeft :
      (o : Option A)
      → IsLeft (copied_over o) (then_has (record { m_has = false; m_store = raw }) (built o))
  copied-IsLeft none = (tt, refl)
  copied-IsLeft (some v) = (tt, refl)

  over-IsLeft :
      (w : A) (p : A × Bool)
      → IsLeft (over p) (with_store (record { m_has = true; m_store = live w }) (left_by p))
  over-IsLeft w (v, true) = (tt, refl)
  over-IsLeft w (v, false) = (tt, refl)

  assign-fields :
      (c : Copying A) (s t : Storage A) (a b : Bool)
      → IsValidOption s a
      → IsValidOption t b
      → IsLeft (assigned c (option_of s) (option_of t)) (
          assign_holder c false
            (record { m_has = a; m_store = s })
            (record { m_has = b; m_store = t }))
  unfolding assign_holder
  assign-fields c raw t true b h k = absurd h
  assign-fields c (live w) t false b h k = absurd h
  assign-fields c raw raw false true h k = absurd k
  assign-fields c raw (live v) false false h k = absurd k
  assign-fields c (live w) raw true true h k = absurd k
  assign-fields c (live w) (live v) true false h k = absurd k
  assign-fields c raw raw false false h k = (tt, refl)
  assign-fields c raw (live v) false true h k = copied-IsLeft (c.copy v)
  assign-fields c (live w) raw true false h k = (tt, refl)
  assign-fields c (live w) (live v) true true h k = over-IsLeft w (c.assign w v)

  -- What operator= is to leave.
  abbrev pub assigned_to : Copying A → Bool → Holder A → Holder A → Option A × Bool
  assigned_to c true o other = (held o, false)
  assigned_to c false o other = assigned c (held o) (held other)

  pub assign_holder-IsLeft :
      (c : Copying A) (same : Bool) (o other : Holder A)
      → IsHeld o
      → IsHeld other
      → IsLeft (assigned_to c same o other) (assign_holder c same o other)
  assign_holder-IsLeft c true o other h k = unfold assign_holder in (h, refl)
  assign_holder-IsLeft c false o other h k =
      assign-fields c o.m_store other.m_store o.m_has other.m_has h k

  pub replace-fields :
      (c : Copying A) (s : Storage A) (a : Bool) (v : A)
      → IsValidOption s a
      → IsLeft (assigned c (option_of s) (some v)) (replace c (record { m_has = a; m_store = s }) v)
  unfolding replace
  replace-fields c raw true v h = absurd h
  replace-fields c (live w) false v h = absurd h
  replace-fields c raw false v h = copied-IsLeft (c.copy v)
  replace-fields c (live w) true v h = over-IsLeft w (c.assign w v)

  reset_holder-fields :
      (s : Storage A) (a : Bool)
      → IsValidOption s a
      → reset_holder (record { m_has = a; m_store = s }) ≡ done empty_holder
  unfolding reset_holder
  reset_holder-fields raw true h = absurd h
  reset_holder-fields (live w) false h = absurd h
  reset_holder-fields raw false h = refl
  reset_holder-fields (live w) true h = refl

  pub reset_lem : (o : Holder A) → IsHeld o → reset_holder o ≡ done empty_holder
  reset_lem o h = reset_holder-fields o.m_store o.m_has h

  -- The value that both objects stand for, where both assignments return.
  abbrev pub AreBoth : Option A → Effect (Holder A) → Effect (OptionObject A) → Type 0
  AreBoth o (done t) (done u) =
      IsHeld t × IsValidOption u.storage u.has_value × (held t ≡ o) × (option_of u.storage ≡ o)
  AreBoth o _ _ = ⊥

  both-AreBoth :
      (o q : Option A) (e : Effect (Holder A)) (f : Effect (OptionObject A))
      → q ≡ o
      → IsLeft (o, false) e
      → IsAssigned q o f
      → AreBoth o e f
  both-AreBoth o q (done t) (done u) same h k = (h.0, k.0, h.1, k.1 ∙ same)
  both-AreBoth o q (done t) (thrown u) same h k = absurd (k.3 (sym same ∙ k.2))
  both-AreBoth o q (done t) fault same h k = absurd k
  both-AreBoth o q (thrown t) f same h k = absurd h
  both-AreBoth o q fault f same h k = absurd h

  assigned-faithful :
      (c : Copying A) (o other : Option A)
      → ((v : A) → c.copy v ≡ some v)
      → ((w v : A) → c.assign w v ≡ (v, false))
      → assigned c o other ≡ (other, false)
  assigned-faithful c o none copies assigns = refl
  assigned-faithful c none (some v) copies assigns = ap copied_over (copies v)
  assigned-faithful c (some w) (some v) copies assigns = ap over (assigns w v)

  copied-faithful :
      (c : Copying A) (o : Option A) → ((v : A) → c.copy v ≡ some v) → copied c.copy o ≡ o
  copied-faithful c none copies = refl
  copied-faithful c (some v) copies = copies v

  -- Where the value type's copy constructor and operator= give equal values and do not throw,
  -- operator= of the Option of docs/util/OptionResult.hpp and operator= of the one of
  -- src/option/option.hpp, each between valid and different objects that stand for the same optional
  -- value on the right-hand side, leave valid objects that both stand for that value.
  pub assign_holder-assign_option :
      (c : Copying A) (o other : Holder A) (p from : OptionObject A)
      → ((v : A) → c.copy v ≡ some v)
      → ((w v : A) → c.assign w v ≡ (v, false))
      → IsHeld o
      → IsHeld other
      → IsValidOption p.storage p.has_value
      → IsValidOption from.storage from.has_value
      → held other ≡ option_of from.storage
      → AreBoth (held other) (assign_holder c false o other) (assign_option c.copy false p from)
  assign_holder-assign_option c o other p from copies assigns h k i j same =
      both-AreBoth (held other) (copied c.copy (held other)) (assign_holder c false o other)
        (assign_option c.copy false p from) (copied-faithful c (held other) copies)
        (subst (λ q. IsLeft q (assign_holder c false o other))
          (assigned-faithful c (held o) (held other) copies assigns)
          (assign_holder-IsLeft c false o other h k))
        (subst (λ q. IsAssigned (copied c.copy q) q (assign_option c.copy false p from)) (sym same)
          (assign_option-IsAssigned c.copy false p from i j))
