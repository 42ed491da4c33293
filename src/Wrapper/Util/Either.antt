-- ===== src/Wrapper/Util/Either.antt =====
-- Result of docs/util/OptionResult.hpp, a union beside a state and a flag.
use selfserv.Base.{Bool, true, false, not, ◌&&◌, Option, none, some, if◌then◌else◌}
use selfserv.Wrapper.Storage.{Effect, done, thrown, fault}
use selfserv.Wrapper.Either.{Union, empty, live_t, live_e, read_t, read_e}
use selfserv.Wrapper.Util.{Copying}

pub data OutcomeState : Type 0 where
  st_ok st_err : OutcomeState

abbrev pub is_st_ok : OutcomeState → Bool
is_st_ok st_ok = true
is_st_ok st_err = false

-- m_state == other.m_state
abbrev pub same_state : OutcomeState → OutcomeState → Bool
same_state st_ok s = is_st_ok s
same_state st_err s = not (is_st_ok s)

pub record TaggedResult {ℓ} (T E : Type ℓ) : Type ℓ where
  pub m_store : Union T E
  pub m_state : OutcomeState
  pub m_has : Bool

-- The two value types.
pub record Sides {ℓ} (T E : Type ℓ) : Type ℓ where
  pub ok_side : Copying T
  pub err_side : Copying E

module _ {ℓ} {T E : Type ℓ} where
  -- Result()
  abbrev pub default_outcome : TaggedResult T E
  default_outcome = record { m_store = empty; m_state = st_err; m_has = false }

  -- IsOk and IsErr
  abbrev pub outcome_ok : TaggedResult T E → Bool
  outcome_ok r = is_st_ok r.m_state

  abbrev pub outcome_err : TaggedResult T E → Bool
  outcome_err r = not (is_st_ok r.m_state)

  -- Ok and Err; `none` is the assert's end of the program.
  unfoldable pub ok_value : TaggedResult T E → Option (Effect T)
  unfolding read_t
  ok_value r = if outcome_ok r then some (read_t r.m_store) else none

  unfoldable pub err_value : TaggedResult T E → Option (Effect E)
  unfolding read_e
  err_value r = if outcome_err r then some (read_e r.m_store) else none

  -- What OkOr returns is a copy; `none` is an exception of the copy.
  abbrev pub copied_ok : Sides T E → Effect T → Effect (Option T)
  copied_ok c (done v) = done (c.ok_side.copy v)
  copied_ok c _ = fault

  unfoldable pub ok_or : Sides T E → TaggedResult T E → T → Effect (Option T)
  unfolding read_t
  ok_or c r fallback = copied_ok c (if outcome_ok r then read_t r.m_store else done fallback)

  -- Placement new of a copy over the union, where the object is as `r` says by then, and `behind`
  -- is what is set after it.
  abbrev pub fill_union :
      (TaggedResult T E → TaggedResult T E)
      → TaggedResult T E
      → Option (Union T E)
      → Effect (TaggedResult T E)
  fill_union behind r none = thrown r
  fill_union behind r (some u) = done (behind (record r { m_store = u }))

  abbrev pub place :
      (TaggedResult T E → TaggedResult T E)
      → TaggedResult T E
      → Union T E
      → Option (Union T E)
      → Effect (TaggedResult T E)
  place behind r empty u = fill_union behind r u
  place behind r _ u = fault

  abbrev pub made_ok : Option T → Option (Union T E)
  made_ok none = none
  made_ok (some v) = some (live_t v)

  abbrev pub made_err : Option E → Option (Union T E)
  made_err none = none
  made_err (some e) = some (live_e e)

  abbrev pub place_ok :
      Sides T E
      → (TaggedResult T E → TaggedResult T E)
      → TaggedResult T E
      → Effect T
      → Effect (TaggedResult T E)
  place_ok c behind r (done v) = place behind r r.m_store (made_ok (c.ok_side.copy v))
  place_ok c behind r _ = fault

  abbrev pub place_err :
      Sides T E
      → (TaggedResult T E → TaggedResult T E)
      → TaggedResult T E
      → Effect E
      → Effect (TaggedResult T E)
  place_err c behind r (done e) = place behind r r.m_store (made_err (c.err_side.copy e))
  place_err c behind r _ = fault

  abbrev pub has_now : TaggedResult T E → TaggedResult T E
  has_now r = record r { m_has = true }

  -- MakeOk and MakeErr
  unfoldable pub make_ok : Sides T E → T → Effect (TaggedResult T E)
  make_ok c v =
      place_ok c (λ r. r) (record { m_store = empty; m_state = st_ok; m_has = true }) (done v)

  unfoldable pub make_err : Sides T E → E → Effect (TaggedResult T E)
  make_err c e =
      place_err c (λ r. r) (record { m_store = empty; m_state = st_err; m_has = true }) (done e)

  -- OkPtr()->~T() and ErrPtr()->~E(), and m_has reset behind them
  abbrev pub end_ok : TaggedResult T E → Union T E → Effect (TaggedResult T E)
  end_ok r (live_t v) = done (record r { m_store = empty; m_has = false })
  end_ok r _ = fault

  abbrev pub end_err : TaggedResult T E → Union T E → Effect (TaggedResult T E)
  end_err r (live_e e) = done (record r { m_store = empty; m_has = false })
  end_err r _ = fault

  -- Destroy, and ~Result
  unfoldable pub destroy_outcome : TaggedResult T E → Effect (TaggedResult T E)
  destroy_outcome r =
      if r.m_has
      then if is_st_ok r.m_state then end_ok r r.m_store else end_err r r.m_store
      else done r

  -- CopyFrom, which sets the state and the flag ahead of placement new
  unfoldable pub copy_outcome_from :
      Sides T E → TaggedResult T E → TaggedResult T E → Effect (TaggedResult T E)
  unfolding read_t read_e
  copy_outcome_from c r other =
      if not other.m_has
      then done r
      else let marked : TaggedResult T E = record r { m_state = other.m_state; m_has = true } in
        if is_st_ok other.m_state
        then place_ok c (λ r. r) marked (read_t other.m_store)
        else place_err c (λ r. r) marked (read_e other.m_store)

  -- Result(other)
  unfoldable pub copy_outcome : Sides T E → TaggedResult T E → Effect (TaggedResult T E)
  unfolding copy_outcome_from
  copy_outcome c other = copy_outcome_from c default_outcome other

  -- *OkPtr() = *other.OkPtr() and *ErrPtr() = *other.ErrPtr()
  abbrev pub left_ok : TaggedResult T E → T × Bool → Effect (TaggedResult T E)
  left_ok r (v, false) = done (record r { m_store = live_t v })
  left_ok r (v, true) = thrown (record r { m_store = live_t v })

  abbrev pub left_err : TaggedResult T E → E × Bool → Effect (TaggedResult T E)
  left_err r (e, false) = done (record r { m_store = live_e e })
  left_err r (e, true) = thrown (record r { m_store = live_e e })

  abbrev pub assign_ok :
      Sides T E → TaggedResult T E → Effect T → Effect T → Effect (TaggedResult T E)
  assign_ok c r (done w) (done v) = left_ok r (c.ok_side.assign w v)
  assign_ok c r _ _ = fault

  abbrev pub assign_err :
      Sides T E → TaggedResult T E → Effect E → Effect E → Effect (TaggedResult T E)
  assign_err c r (done w) (done e) = left_err r (c.err_side.assign w e)
  assign_err c r _ _ = fault

  -- AssignFrom
  unfoldable pub assign_outcome_from :
      Sides T E → TaggedResult T E → TaggedResult T E → Effect (TaggedResult T E)
  unfolding read_t read_e destroy_outcome copy_outcome_from
  assign_outcome_from c r other =
      if same_state r.m_state other.m_state
      then if is_st_ok r.m_state
        then if r.m_has && other.m_has
          then assign_ok c r (read_t r.m_store) (read_t other.m_store)
          else if not r.m_has && other.m_has
          then place_ok c has_now r (read_t other.m_store)
          else if r.m_has && not other.m_has
          then end_ok r r.m_store
          else done r
        else if r.m_has && other.m_has
        then assign_err c r (read_e r.m_store) (read_e other.m_store)
        else if not r.m_has && other.m_has
        then place_err c has_now r (read_e other.m_store)
        else if r.m_has && not other.m_has
        then end_err r r.m_store
        else done r
      else elim (destroy_outcome r) [ done s ↦ copy_outcome_from c s other | _ ↦ fault ]

  -- operator=, where `same` says that the two objects are one.
  unfoldable pub assign_outcome :
      Sides T E → Bool → TaggedResult T E → TaggedResult T E → Effect (TaggedResult T E)
  unfolding assign_outcome_from
  assign_outcome c same r other = if not same then assign_outcome_from c r other else done r
