-- ===== src/Base/Int.antt =====
-- The C int, and std::atoi as the GNU library has it: strtol, cut to the 32 bits of an int.
use Prim.Native.Nat.{ℕ, ◌+◌, ◌-◌, ◌*◌, ◌%◌, ◌^◌}
use mathlib.Core.List.{[], ◌∷◌}
use selfserv.Base.Tests.{leb, ltb, ◌==◌, if◌then◌else◌}
use selfserv.Base.Text.{Bytes, is_digit, is_space}

-- `negsuc n` is -(n + 1).
pub data ℤ : Type 0 where
  pos : ℕ → ℤ
  negsuc : ℕ → ℤ

-- -n
abbrev pub neg : ℕ → ℤ
neg n = if n == 0 then pos 0 else negsuc (n - 1)

abbrev pub size_mod : ℕ
size_mod = 2 ^ 64

abbrev pub long_limit : ℕ
long_limit = 2 ^ 63

-- The value of the digits at the front of a text, behind those read into `n`.
unfoldable pub digits_value : ℕ → Bytes → ℕ
digits_value n [] = n
digits_value n (c ∷ cs) = if is_digit c then digits_value (n * 10 + (c - 48)) cs else n

unfoldable pub skip_blank : Bytes → Bytes
skip_blank [] = []
skip_blank (c ∷ cs) = if is_space c then skip_blank cs else c ∷ cs

-- strtol at base 10: an optional sign and digits, clamped to the range of a long.
unfoldable pub signed_value : Bytes → ℤ
unfolding digits_value
signed_value [] = pos 0
signed_value (c ∷ cs) =
    if c == b'-'
    then (let n = digits_value 0 cs in neg (if leb long_limit n then long_limit else n))
    else (let n = digits_value 0 (if c == b'+' then cs else c ∷ cs) in
        pos (if leb long_limit n then long_limit - 1 else n))

-- The low 32 bits, read as an int.
unfoldable pub to_int : ℤ → ℤ
to_int (pos n) = let m = n % 2 ^ 32 in if ltb m (2 ^ 31) then pos m else negsuc (2 ^ 32 - m - 1)
to_int (negsuc n) = let m = n % 2 ^ 32 in if ltb m (2 ^ 31) then negsuc m else pos (2 ^ 32 - m - 1)

unfoldable pub atoi : Bytes → ℤ
unfolding signed_value to_int skip_blank
atoi s = to_int (signed_value (skip_blank s))

-- (size_t) of an int, which wraps a negative value.
unfoldable pub to_size : ℤ → ℕ
to_size (pos n) = n
to_size (negsuc n) = size_mod - 1 - n
