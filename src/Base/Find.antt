-- ===== src/Base/Find.antt =====
-- Laws of std::string::find.
use Prim.Native.Nat.{ℕ, ◌+◌, ◌≤◌}
use mathlib.Core.Path.{◌≡◌, refl}
use mathlib.Core.Logic.{inl, inr}
use mathlib.Core.Bool.{true}
use mathlib.Core.Option.{some}
use mathlib.Core.List.{[], ◌∷◌, ◌++◌}
use native.Mathlib.Omega.{arith}
use selfserv.Base.Tests.{Option-cases}
use selfserv.Base.Lists.{length}
use selfserv.Base.Text.{Bytes, starts_with, find}

pub starts_with-length : (p s : Bytes) → starts_with p s ≡ true → length p ≤ length s
unfolding starts_with
starts_with-length [] s h = omega arith
starts_with-length (x ∷ p) [] h = cc
starts_with-length (x ∷ p) (c ∷ s) h = ground (arith, starts_with-length p s)

starts_with-append :
    (p s t : Bytes) → length p ≤ length s → starts_with p (s ++ t) ≡ starts_with p s
unfolding starts_with
starts_with-append [] s t h = refl
starts_with-append (x ∷ p) [] t h = absurd (omega arith)
starts_with-append (x ∷ p) (c ∷ s) t h = rw (starts_with-append p s t (omega arith))

-- Where the pattern is found, it lies within the text.
pub find-le : (p s : Bytes) {i : ℕ} → find p s ≡ some i → i + length p ≤ length s
unfolding find
find-le [] [] e = ground arith
find-le (x ∷ p) [] e = ground arith
find-le p (c ∷ s) e = elim (Option-cases (find p s)) [
  | inl missing ↦ ground (arith, starts_with-length p (c ∷ s))
  | inr (j, found) ↦ ground (arith, starts_with-length p (c ∷ s), find-le p s found)
]

-- More text behind does not move the first occurrence.
pub find-append : (p s t : Bytes) {i : ℕ} → find p s ≡ some i → find p (s ++ t) ≡ some i
unfolding find
find-append [] [] [] e = e
find-append [] [] (d ∷ t) e = ground arith
find-append (x ∷ p) [] t e = ground arith
find-append p (c ∷ s) t e = elim (Option-cases (find p s)) [
  | inl missing ↦ ground (arith, starts_with-length p (c ∷ s), starts_with-append p (c ∷ s) t)
  | inr (j, found) ↦
      ground (arith, find-le p s found, starts_with-append p (c ∷ s) t, find-append p s t found)
]
