-- ===== src/Wrapper/Storage.antt =====
-- The storage that Option and Result keep their values in: bytes in which an object is built by
-- placement new, and ended by a call of its destructor.
use selfserv.Base.{Option, none, some}

module _ {ℓ} (A : Type ℓ) where
  -- Bytes with no object, or with a live one.
  pub data Storage : Type ℓ where
    raw : Storage
    live : A → Storage

  -- How an operation ends: with a value; with an exception, where `A` is what it leaves; or in
  -- undefined behaviour: an object built over a live one, or read or ended where there is none.
  pub data Effect : Type ℓ where
    done thrown : A → Effect
    fault : Effect

module _ {ℓ κ} {A : Type ℓ} {B : Type κ} where
  abbrev pub then_do : Effect A → (A → Effect B) → (A → Effect B) → Effect B
  then_do (done a) f g = f a
  then_do (thrown a) f g = g a
  then_do fault f g = fault

module _ {ℓ} {A : Type ℓ} where
  -- new (ptr) T(value), with the copy constructor of T; `none` is an exception of it.
  abbrev pub built : Option A → Effect (Storage A)
  built none = thrown raw
  built (some w) = done (live w)

  unfoldable pub construct : (A → Option A) → A → Storage A → Effect (Storage A)
  construct copy v raw = built (copy v)
  construct copy v (live w) = fault

  -- ptr->~T()
  unfoldable pub destroy : Storage A → Effect (Storage A)
  destroy raw = fault
  destroy (live v) = done raw

  -- *ptr
  unfoldable pub read : Storage A → Effect A
  read raw = fault
  read (live v) = done v
