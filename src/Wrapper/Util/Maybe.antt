-- ===== src/Wrapper/Util/Maybe.antt =====
-- Option of docs/util/OptionResult.hpp.
use selfserv.Base.{Bool, true, false, not, ◌&&◌, Option, none, some, if◌then◌else◌}
use selfserv.Wrapper.Storage.{
  Storage, raw, live, Effect, done, thrown, fault, then_do, construct, destroy, read,
}
use selfserv.Wrapper.Util.{Copying}

pub record Holder {ℓ} (A : Type ℓ) : Type ℓ where
  pub m_has : Bool
  pub m_store : Storage A

module _ {ℓ} {A : Type ℓ} where
  -- Option() and None
  abbrev pub empty_holder : Holder A
  empty_holder = record { m_has = false; m_store = raw }

  -- IsSome, HasValue and IsNone
  abbrev pub holds_some : Holder A → Bool
  holds_some o = o.m_has

  abbrev pub holds_none : Holder A → Bool
  holds_none o = not o.m_has

  -- m_has is set behind placement new.
  abbrev pub then_has : Holder A → Effect (Storage A) → Effect (Holder A)
  then_has o (done s) = done (record { m_has = true; m_store = s })
  then_has o (thrown s) = thrown (record o { m_store = s })
  then_has o fault = fault

  -- m_has is reset behind the destructor.
  abbrev pub then_not : Effect (Storage A) → Effect (Holder A)
  then_not (done s) = done (record { m_has = false; m_store = s })
  then_not _ = fault

  -- *m_store.Obj() = value, with the operator= of T
  abbrev pub left_by : A × Bool → Effect (Storage A)
  left_by (v, false) = done (live v)
  left_by (v, true) = thrown (live v)

  unfoldable pub assign_object : Copying A → A → Storage A → Effect (Storage A)
  assign_object c v raw = fault
  assign_object c v (live w) = left_by (c.assign w v)

  abbrev pub with_store : Holder A → Effect (Storage A) → Effect (Holder A)
  with_store o (done s) = done (record o { m_store = s })
  with_store o (thrown s) = thrown (record o { m_store = s })
  with_store o fault = fault

  -- Option(value) and Some
  unfoldable pub new_holder : Copying A → A → Effect (Holder A)
  unfolding construct
  new_holder c v = then_has (record { m_has = true; m_store = raw }) (construct c.copy v raw)

  -- Reset, and ~Option
  unfoldable pub reset_holder : Holder A → Effect (Holder A)
  unfolding destroy
  reset_holder o = if o.m_has then then_not (destroy o.m_store) else done o

  -- Replace
  unfoldable pub replace : Copying A → Holder A → A → Effect (Holder A)
  unfolding construct assign_object
  replace c o v =
      if o.m_has
      then with_store o (assign_object c v o.m_store)
      else then_has o (construct c.copy v o.m_store)

  -- Value; `none` is the assert's end of the program.
  unfoldable pub holder_value : Holder A → Option (Effect A)
  unfolding read
  holder_value o = if o.m_has then some (read o.m_store) else none

  abbrev pub copied_out : Copying A → Effect A → Effect (Option A)
  copied_out c (done v) = done (c.copy v)
  copied_out c _ = fault

  -- ValueOr, which copies what it returns; `none` is an exception of the copy.
  unfoldable pub holder_value_or : Copying A → Holder A → A → Effect (Option A)
  unfolding read
  holder_value_or c o fallback = copied_out c (if o.m_has then read o.m_store else done fallback)

  -- CopyFrom
  unfoldable pub copy_from : Copying A → Holder A → Holder A → Effect (Holder A)
  unfolding construct read
  copy_from c o other =
      if other.m_has
      then then_do (read other.m_store) (λ v. then_has o (construct c.copy v o.m_store))
          (λ v. fault)
      else done o

  -- Option(other)
  unfoldable pub copy_holder : Copying A → Holder A → Effect (Holder A)
  unfolding copy_from
  copy_holder c other = copy_from c empty_holder other

  -- AssignFrom
  unfoldable pub assign_from : Copying A → Holder A → Holder A → Effect (Holder A)
  unfolding construct destroy read assign_object
  assign_from c o other =
      if o.m_has && other.m_has
      then then_do (read other.m_store) (λ v. with_store o (assign_object c v o.m_store))
          (λ v. fault)
      else if not o.m_has && other.m_has
      then then_do (read other.m_store) (λ v. then_has o (construct c.copy v o.m_store))
          (λ v. fault)
      else if o.m_has && not other.m_has
      then then_not (destroy o.m_store)
      else done o

  -- operator=, where `same` says that the two objects are one.
  unfoldable pub assign_holder : Copying A → Bool → Holder A → Holder A → Effect (Holder A)
  unfolding assign_from
  assign_holder c same o other = if not same then assign_from c o other else done o
