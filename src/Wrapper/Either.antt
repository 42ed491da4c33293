-- ===== src/Wrapper/Either.antt =====
-- Result of src/result/result.hpp.
use selfserv.Base.{Bool, true, false, not, Option, none, some, if◌then◌else◌}
use selfserv.Wrapper.Storage.{Effect, done, thrown, fault}

-- The union: no object, a live T, or a live E.
pub data Union {ℓ} (T E : Type ℓ) : Type ℓ where
  empty : Union T E
  live_t : T → Union T E
  live_e : E → Union T E

pub record ResultObject {ℓ} (T E : Type ℓ) : Type ℓ where
  pub storage : Union T E
  pub is_ok : Bool

-- The two copy constructors; `none` is an exception.
pub record Copies {ℓ} (T E : Type ℓ) : Type ℓ where
  pub copy_t : T → Option T
  pub copy_e : E → Option E

module _ {ℓ} {T E : Type ℓ} where
  -- *GetTPtr() and *GetEPtr()
  unfoldable pub read_t : Union T E → Effect T
  read_t (live_t v) = done v
  read_t _ = fault

  unfoldable pub read_e : Union T E → Effect E
  read_e (live_e e) = done e
  read_e _ = fault

  -- GetTPtr()->~T() or GetEPtr()->~E(), by m_isOk
  unfoldable pub end_value : Bool → Union T E → Effect (Union T E)
  end_value true (live_t v) = done empty
  end_value false (live_e e) = done empty
  end_value _ _ = fault

  -- m_isOk is set, and then the value is built in storage with no object.
  abbrev pub built_t : Option T → Effect (ResultObject T E)
  built_t none = thrown (record { storage = empty; is_ok = true })
  built_t (some v) = done (record { storage = live_t v; is_ok = true })

  abbrev pub built_e : Option E → Effect (ResultObject T E)
  built_e none = thrown (record { storage = empty; is_ok = false })
  built_e (some e) = done (record { storage = live_e e; is_ok = false })

  abbrev pub build_t : Copies T E → Effect T → Effect (ResultObject T E)
  build_t c (done v) = built_t (c.copy_t v)
  build_t c _ = fault

  abbrev pub build_e : Copies T E → Effect E → Effect (ResultObject T E)
  build_e c (done e) = built_e (c.copy_e e)
  build_e c _ = fault

  -- Result(other)
  unfoldable pub copy_result : Copies T E → ResultObject T E → Effect (ResultObject T E)
  unfolding read_t read_e
  copy_result c other =
      if other.is_ok then build_t c (read_t other.storage) else build_e c (read_e other.storage)

  -- Result(value) and Ok
  unfoldable pub new_ok : Copies T E → T → Effect (ResultObject T E)
  new_ok c v = built_t (c.copy_t v)

  -- Where the copy in Err throws, the local `result` is ended with its flag set and no object.
  abbrev pub leave_err : Effect (ResultObject T E) → Effect (ResultObject T E)
  leave_err (done r) = done r
  leave_err (thrown r) = elim (end_value r.is_ok r.storage) [
    | done s ↦ thrown r
    | thrown s ↦ thrown r
    | fault ↦ fault
  ]
  leave_err fault = fault

  -- Err, whose result is built in its place, with no copy
  unfoldable pub new_err : Copies T E → E → Effect (ResultObject T E)
  unfolding end_value
  new_err c e = leave_err (built_e (c.copy_e e))

  abbrev pub behind_end :
      Copies T E → ResultObject T E → Effect (Union T E) → Effect (ResultObject T E)
  behind_end c other (done s) = copy_result c other
  behind_end c other _ = fault

  -- operator=, where `same` says that the two objects are one.
  unfoldable pub assign_result :
      Copies T E → Bool → ResultObject T E → ResultObject T E → Effect (ResultObject T E)
  unfolding copy_result end_value
  assign_result c same r other =
      if same then done r else behind_end c other (end_value r.is_ok r.storage)

  -- ~Result
  unfoldable pub end_result : ResultObject T E → Effect (Union T E)
  unfolding end_value
  end_result r = end_value r.is_ok r.storage

  -- Unwrap and UnwrapErr; `none` is BadResultAccess.
  unfoldable pub unwrap_result : ResultObject T E → Option (Effect T)
  unfolding read_t
  unwrap_result r = if not r.is_ok then none else some (read_t r.storage)

  unfoldable pub unwrap_err : ResultObject T E → Option (Effect E)
  unfolding read_e
  unwrap_err r = if r.is_ok then none else some (read_e r.storage)

  -- UnwrapOr
  unfoldable pub unwrap_result_or : ResultObject T E → T → Effect T
  unfolding read_t
  unwrap_result_or r d = if r.is_ok then read_t r.storage else done d
