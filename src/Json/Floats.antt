-- ===== src/Json/Floats.antt =====
-- What the JSON code takes from the C++ library about doubles: std::strtod, and the text that
-- operator<< writes.
use selfserv.Base.{ℕ, Bytes}

pub record Floats (D : Type 0) : Type 0 where
  -- the value of the longest numeral at the front of a text, and the length of that numeral
  pub strtod : Bytes → D × ℕ
  pub show : D → Bytes
