-- ===== src/Json/Objects.antt =====
-- The map of a JsonObject: lookups after SetValue, and the order of its keys.
use selfserv.Base.{
  ◌≡◌, ◌≢◌, refl, sym, ◌⊎◌, inl, inr, Bool, true, false, Option, none, some, [], ◌∷◌, if◌then◌else◌,
  Bytes, equal, equal_iff, equal_refl, arith, Bool-cases,
}
use selfserv.Json.Value.{
  JsonValue, Members, no_members, member, before, set_value, get_value, has_key,
}

pub before_irrefl : (a : Bytes) → before a a ≡ false
unfolding before
before_irrefl [] = refl
before_irrefl (x ∷ xs) = ground (arith, before_irrefl xs)

pub before_trans : (a b c : Bytes) → before a b ≡ true → before b c ≡ true → before a c ≡ true
unfolding before
before_trans [] [] c h k = cc
before_trans [] (y ∷ ys) [] h k = cc
before_trans [] (y ∷ ys) (z ∷ zs) h k = refl
before_trans (x ∷ xs) [] c h k = cc
before_trans (x ∷ xs) (y ∷ ys) [] h k = cc
before_trans (x ∷ xs) (y ∷ ys) (z ∷ zs) h k = ground (arith, before_trans xs ys zs)

pub before_total : (a b : Bytes) → before a b ≡ false → equal b a ≡ false → before b a ≡ true
unfolding before equal
before_total [] [] h k = cc
before_total [] (y ∷ ys) h k = cc
before_total (x ∷ xs) [] h k = refl
before_total (x ∷ xs) (y ∷ ys) h k = ground (arith, before_total xs ys)

pub before→ne : (a b : Bytes) → before a b ≡ true → equal a b ≡ false
before→ne a b h = elim (Bool-cases (equal a b)) [
  | inl e ↦ cc ((equal_iff a b).0 e, before_irrefl a)
  | inr e ↦ e
]

pub before_asymm : (a b : Bytes) → before a b ≡ true → before b a ≡ false
before_asymm a b h = elim (Bool-cases (before b a)) [
  | inl e ↦ cc (before_trans a b a h e, before_irrefl a)
  | inr e ↦ e
]

abbrev pub is_some {ℓ} : {A : Type ℓ} → Option A → Bool
is_some none = false
is_some (some a) = true

pub before_cases : (a b : Bytes) → ((before a b ≡ true) ⊎ (before b a ≡ true)) ⊎ (a ≡ b)
before_cases a b = elim (Bool-cases (before a b)) [
  | inl h ↦ inl (inl h)
  | inr h ↦ elim (Bool-cases (equal b a)) [
    | inl e ↦ inr (sym ((equal_iff b a).0 e))
    | inr e ↦ inl (inr (before_total a b h e))
  ]
]

module _ {D : Type 0} where
  -- The keys of the object come after `k`, and each after the one before it.
  abbrev pub Follow : Bytes → Members D → Type 0
  Follow k no_members = Unit {0}
  Follow k (member j v ms) = (before k j ≡ true) × Follow j ms

  -- The order of a std::map: strictly rising keys.
  abbrev pub Sorted : Members D → Type 0
  Sorted no_members = Unit {0}
  Sorted (member k v ms) = Follow k ms

  -- A lookup after SetValue finds the new value at its key, and elsewhere what was there before.
  pub get_value-set_value :
      (k j : Bytes) (v : JsonValue D) (ms : Members D)
      → get_value j (set_value k v ms) ≡ (if equal k j then some v else get_value j ms)
  unfolding get_value set_value
  get_value-set_value k j v no_members = refl
  get_value-set_value k j v (member i w ms) =
      ground (arith, equal_iff k j, equal_iff i j, equal_iff i k, get_value-set_value k j v ms)

  -- HasKey says whether GetValue is not NULL.
  pub has_key-get_value : (k : Bytes) (ms : Members D) → has_key k ms ≡ is_some (get_value k ms)
  unfolding has_key get_value
  has_key-get_value k no_members = refl
  has_key-get_value k (member j v ms) = ground (arith, has_key-get_value k ms)

  Follow-set_value :
      (i k : Bytes) (v : JsonValue D) (ms : Members D)
      → before i k ≡ true
      → Follow i ms
      → Follow i (set_value k v ms)
  unfolding set_value
  Follow-set_value i k v no_members h f = (h, tt)
  Follow-set_value i k v (member j w ms) h f =
      ground (arith, before_total k j, Follow-set_value j k v ms)

  pub set_value-Sorted :
      (k : Bytes) (v : JsonValue D) (ms : Members D) → Sorted ms → Sorted (set_value k v ms)
  unfolding set_value
  set_value-Sorted k v no_members f = tt
  set_value-Sorted k v (member j w ms) f =
      ground (arith, before_total k j, Follow-set_value j k v ms)

  Follow-before : (k j : Bytes) (ms : Members D) → before k j ≡ true → Follow j ms → Follow k ms
  Follow-before k j no_members h f = tt
  Follow-before k j (member i v ms) h f = (before_trans k j i h f.0, f.1)

  get_value-no_members : (k : Bytes) → get_value {D = D} k no_members ≡ none
  unfolding get_value
  get_value-no_members k = refl

  get_value-Follow : (k : Bytes) (ms : Members D) → Follow k ms → get_value k ms ≡ none
  unfolding get_value
  get_value-Follow k no_members f = refl
  get_value-Follow k (member j v ms) f =
      ground (arith, equal_iff j k, before_irrefl j, get_value-Follow k ms, Follow-before k j ms)

  get_value-head :
      (i : Bytes) (v : JsonValue D) (ms : Members D) → get_value i (member i v ms) ≡ some v
  unfolding get_value
  get_value-head i v ms = rw (equal_refl i)

  pub Follow→Sorted : (i : Bytes) (ms : Members D) → Follow i ms → Sorted ms
  Follow→Sorted i no_members f = tt
  Follow→Sorted i (member j v ms) f = f.1

  tail_lookups :
      (i j : Bytes) (v w : JsonValue D) (ms ns : Members D)
      → i ≡ j
      → Follow i ms
      → Follow j ns
      → ((k : Bytes) → get_value k (member i v ms) ≡ get_value k (member j w ns))
      → (k : Bytes) → get_value k ms ≡ get_value k ns
  unfolding get_value
  tail_lookups i j v w ms ns p f g e k = elim (Bool-cases (equal i k)) [
    | inl same ↦ ground (arith, equal_iff i k, get_value-Follow i ms f, get_value-Follow j ns g)
    | inr other ↦ ground (arith, e k)
  ]

  -- Objects that answer every lookup alike are the same object: nothing of the order in which
  -- the keys were set is kept.
  pub Sorted-ext :
      (ms ns : Members D)
      → Sorted ms
      → Sorted ns
      → ((k : Bytes) → get_value k ms ≡ get_value k ns)
      → ms ≡ ns
  Sorted-ext no_members no_members f g e = refl
  Sorted-ext no_members (member j w ns) f g e =
      cc (e j, get_value-head j w ns, get_value-no_members j)
  Sorted-ext (member i v ms) no_members f g e =
      cc (e i, get_value-head i v ms, get_value-no_members i)
  Sorted-ext (member i v ms) (member j w ns) f g e = elim (before_cases i j) [
    | inl (inl h) ↦ cc (e i, get_value-head i v ms, get_value-Follow i (member j w ns) (h, g))
    | inl (inr h) ↦ cc (e j, get_value-head j w ns, get_value-Follow j (member i v ms) (h, f))
    | inr p ↦ cc (
      p,
      e i,
      get_value-head i v ms,
      get_value-head j w ns,
      Sorted-ext ms ns (Follow→Sorted i ms f) (Follow→Sorted j ns g)
          (tail_lookups i j v w ms ns p f g e),
    )
  ]

  -- Setting two different keys gives the same object in either order, where its keys are sorted.
  pub set_value_comm :
      (k j : Bytes) (v w : JsonValue D) (ms : Members D)
      → Sorted ms
      → k ≢ j
      → set_value k v (set_value j w ms) ≡ set_value j w (set_value k v ms)
  set_value_comm k j v w ms f n =
      Sorted-ext _ _ (set_value-Sorted k v _ (set_value-Sorted j w ms f))
        (set_value-Sorted j w _ (set_value-Sorted k v ms f))
        λ i. ground (
          arith,
          equal_iff k i,
          equal_iff j i,
          get_value-set_value k i v ms,
          get_value-set_value j i w ms,
          get_value-set_value k i v (set_value j w ms),
          get_value-set_value j i w (set_value k v ms),
        )

  -- Every key of the object comes before `k`.
  abbrev pub Precede : Members D → Bytes → Type 0
  Precede no_members k = Unit {0}
  Precede (member j v ms) k = (before j k ≡ true) × Precede ms k

  abbrev pub append_member : Members D → Bytes → JsonValue D → Members D
  append_member no_members k v = member k v no_members
  append_member (member j w ms) k v = member j w (append_member ms k v)

  -- A key beyond all others is set at the end.
  pub set_value-Precede :
      (k : Bytes) (v : JsonValue D) (ms : Members D)
      → Precede ms k
      → set_value k v ms ≡ append_member ms k v
  unfolding set_value
  set_value-Precede k v no_members h = refl
  set_value-Precede k v (member j w ms) h =
      ground (arith, before→ne j k, before_asymm j k, set_value-Precede k v ms)

  pub Precede-append_member :
      (j k : Bytes) (v : JsonValue D) (ms : Members D)
      → Precede ms j
      → before j k ≡ true
      → Precede (append_member ms j v) k
  Precede-append_member j k v no_members h b = (b, tt)
  Precede-append_member j k v (member i w ms) h b =
      (before_trans i j k h.0 b, Precede-append_member j k v ms h.1 b)
