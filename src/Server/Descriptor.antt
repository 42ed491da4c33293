-- ===== src/Server/Descriptor.antt =====
-- The class FD of docs/server/FD.hpp. A descriptor is a number, or `none` for -1; the open ones of the
-- process are a list. dup, which is the system's, is an argument: it gives a descriptor for a list of
-- open ones, or `none` where it fails.
use selfserv.Base.{
  ℕ, ◌≡◌, refl, Bool, false, Option, none, some, List, [], ◌∷◌, ◌==◌, if◌then◌else◌, Bool-cases,
  inl, inr, Option-cases, ==_refl, arith,
}
use mathlib.Core.List.{Memᴰ}
use mathlib.Core.List.Memᴰ.{head, tail, cases_cons}

abbrev pub Dup : Type 0
Dup = List ℕ → Option ℕ

-- close(fd)
unfoldable pub close : ℕ → List ℕ → List ℕ
close fd [] = []
close fd (n ∷ open_fds) = let others = close fd open_fds in if n == fd then others else n ∷ others

-- CloseIfValid, which the destructor calls; m_fd is -1 behind it.
abbrev pub close_if_valid : Option ℕ → List ℕ → List ℕ
close_if_valid none open_fds = open_fds
close_if_valid (some fd) open_fds = close fd open_fds

abbrev pub opened : Option ℕ → List ℕ → Option ℕ × List ℕ
opened none open_fds = (none, open_fds)
opened (some fd) open_fds = (some fd, fd ∷ open_fds)

-- FD(const FD &), which gives the new m_fd
abbrev pub copy_fd : Dup → Option ℕ → List ℕ → Option ℕ × List ℕ
copy_fd dup none open_fds = (none, open_fds)
copy_fd dup (some fd) open_fds = opened (dup open_fds) open_fds

-- operator= from another object
unfoldable pub assign_fd : Dup → Option ℕ → Option ℕ → List ℕ → Option ℕ × List ℕ
unfolding close
assign_fd dup this other open_fds = copy_fd dup other (close_if_valid this open_fds)

abbrev pub is_fd : Option ℕ → ℕ → Bool
is_fd none fd = false
is_fd (some n) fd = n == fd

-- Reset
unfoldable pub reset_fd : Option ℕ → ℕ → List ℕ → Option ℕ × List ℕ
unfolding close
reset_fd this fd open_fds =
    if is_fd this fd then (this, open_fds) else (some fd, close_if_valid this open_fds)

-- Release: what it returns, and m_fd behind it
abbrev pub release_fd : Option ℕ → Option ℕ × Option ℕ
release_fd this = (this, none)

-- dup gives a descriptor that is not open, as POSIX has it.
abbrev pub IsDup : Dup → Type 0
IsDup dup = (open_fds : List ℕ) (fd : ℕ) → dup open_fds ≡ some fd → Memᴰ fd open_fds → ⊥

-- A descriptor that has been closed is not open.
pub close-closes : (fd : ℕ) (open_fds : List ℕ) → Memᴰ fd (close fd open_fds) → ⊥
unfolding close
close-closes fd [] m = elim m [ ]
close-closes fd (n ∷ open_fds) m = elim (Bool-cases (n == fd)) [
  | inl same ↦ close-closes fd open_fds (rw same at m)
  | inr other ↦
      let kept : Memᴰ fd (n ∷ close fd open_fds) = rw other at m in
      elim (cases_cons kept) [
        | inl e ↦ absurd (ground (arith, other, e))
        | inr t ↦ close-closes fd open_fds t
      ]
]

-- Closing a descriptor that is not open does nothing.
close-absent : (fd : ℕ) (open_fds : List ℕ) → (Memᴰ fd open_fds → ⊥) → close fd open_fds ≡ open_fds
unfolding close
close-absent fd [] h = refl
close-absent fd (n ∷ open_fds) h = elim (Bool-cases (n == fd)) [
  | inl same ↦ absurd (h (head (ground (arith, same))))
  | inr other ↦ rw (other, close-absent fd open_fds (λ m. h (tail m)))
]

close-made : (d : ℕ) (open_fds : List ℕ) → (Memᴰ d open_fds → ⊥) → close d (d ∷ open_fds) ≡ open_fds
unfolding close
close-made d open_fds h = rw (==_refl d, close-absent d open_fds h)

-- The copy of an FD gives a descriptor of its own (or none), and when the copy ends, the open
-- descriptors are as before it.
pub copy_fd-close :
    (dup : Dup) (other : Option ℕ) (open_fds : List ℕ)
    → IsDup dup
    → close_if_valid (copy_fd dup other open_fds).0 (copy_fd dup other open_fds).1 ≡ open_fds
copy_fd-close dup none open_fds h = refl
copy_fd-close dup (some fd) open_fds h = elim (Option-cases (dup open_fds)) [
  | inl failed ↦ rw failed refl
  | inr (d, made) ↦ rw made (close-made d open_fds (h open_fds d made))
]
