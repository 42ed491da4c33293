-- ===== src/Wrapper/Util.antt =====
-- Option and Result of docs/util/OptionResult.hpp, whose values are assigned by their own operator=
-- where both sides hold one.
pub mod Maybe
pub mod Either
pub mod Assigned
pub mod History
pub mod Emptied
mod Tests
use selfserv.Base.{Bool, Option}

-- What a value type does: its copy constructor, where `none` is an exception, and its operator=,
-- from its own value and the other's: what it leaves there, and whether it throws.
pub record Copying {ℓ} (A : Type ℓ) : Type ℓ where
  pub copy : A → Option A
  pub assign : A → A → A × Bool
