-- ===== src/Wrapper.antt =====
-- The value wrappers Option and Result: src/option/option.hpp, src/result/result.hpp and
-- docs/util/OptionResult.hpp.
pub mod Storage
pub mod Maybe
pub mod Either
pub mod Assign
pub mod Util
mod Tests
