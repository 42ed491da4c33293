-- ===== src/Wrapper/Maybe.antt =====
-- Option of src/option/option.hpp.
use selfserv.Base.{Bool, true, false, not, Option, none, some, if◌then◌else◌}
use selfserv.Wrapper.Storage.{
  Storage, raw, Effect, done, thrown, fault, then_do, construct, destroy, read,
}

pub record OptionObject {ℓ} (A : Type ℓ) : Type ℓ where
  pub storage : Storage A
  pub has_value : Bool

module _ {ℓ} {A : Type ℓ} where
  -- Option() and None
  abbrev pub new_none : OptionObject A
  new_none = record { storage = raw; has_value = false }

  -- IsSome and IsNone
  abbrev pub is_some : OptionObject A → Bool
  is_some o = o.has_value

  abbrev pub is_none : OptionObject A → Bool
  is_none o = not o.has_value

  -- An object with the storage that placement new leaves, and `has_value` set behind it.
  abbrev pub filled : Effect (Storage A) → Effect (OptionObject A)
  filled (done s) = done (record { storage = s; has_value = true })
  filled (thrown s) = thrown (record { storage = s; has_value = false })
  filled fault = fault

  -- Option(value) and Some
  unfoldable pub new_some : (A → Option A) → A → Effect (OptionObject A)
  unfolding construct
  new_some copy v = filled (construct copy v raw)

  -- The copy of other's value into storage with no object.
  abbrev pub copy_value : (A → Option A) → OptionObject A → Storage A → Effect (OptionObject A)
  copy_value copy other s =
      if other.has_value
      then then_do (read other.storage) (λ v. filled (construct copy v s)) (λ v. fault)
      else done (record { storage = s; has_value = false })

  -- Option(other)
  unfoldable pub copy_option : (A → Option A) → OptionObject A → Effect (OptionObject A)
  unfolding construct read
  copy_option copy other = copy_value copy other raw

  -- The end of the value that is there, if one is.
  abbrev pub clear : OptionObject A → Effect (Storage A)
  clear o = if o.has_value then destroy o.storage else done o.storage

  -- operator=, where `same` says that the two objects are one.
  unfoldable pub assign_option :
      (A → Option A) → Bool → OptionObject A → OptionObject A → Effect (OptionObject A)
  unfolding construct destroy read
  assign_option copy same o other =
      if same then done o else then_do (clear o) (copy_value copy other) (λ s. fault)

  -- ~Option
  unfoldable pub end_option : OptionObject A → Effect (Storage A)
  unfolding destroy
  end_option o = clear o

  -- Unwrap; `none` is BadOptionAccess.
  unfoldable pub unwrap_option : OptionObject A → Option (Effect A)
  unfolding read
  unwrap_option o = if not o.has_value then none else some (read o.storage)

  -- UnwrapOr
  unfoldable pub unwrap_option_or : OptionObject A → A → Effect A
  unfolding read
  unwrap_option_or o d = if o.has_value then read o.storage else done d
