-- ===== src/Wrapper/Assign.antt =====
-- What the assignments of Option and Result leave, with copies that may throw.
use selfserv.Base.{◌≡◌, refl, Bool, true, false, Option, none, some, if◌then◌else◌}
use selfserv.Wrapper.Storage.{
  Storage, raw, live, Effect, done, thrown, fault, built, construct, read,
}
use selfserv.Wrapper.Maybe.{OptionObject, assign_option, filled, copy_value}
use selfserv.Wrapper.Either.{
  Union, empty, live_t, live_e, ResultObject, Copies, assign_result, end_result,
}

module _ {A : Type 0} where
  -- The flag says whether there is an object.
  abbrev pub IsValidOption : Storage A → Bool → Type 0
  IsValidOption raw false = Unit
  IsValidOption (live v) true = Unit
  IsValidOption _ _ = ⊥

  -- The optional value that the object stands for.
  abbrev pub option_of : Storage A → Option A
  option_of raw = none
  option_of (live v) = some v

  abbrev pub copied : (A → Option A) → Option A → Option A
  copied copy none = none
  copied copy (some v) = copy v

  -- What an assignment may come to: a valid object with `value`; or, where the copy throws, a valid
  -- object with none.
  abbrev pub IsAssigned : Option A → Option A → Effect (OptionObject A) → Type 0
  IsAssigned value source (done t) =
      IsValidOption t.storage t.has_value × (option_of t.storage ≡ value)
  IsAssigned value source (thrown t) =
      IsValidOption t.storage t.has_value
      × (option_of t.storage ≡ none)
      × (value ≡ none)
      × (source ≡ none → ⊥)
  IsAssigned value source fault = ⊥

  filled-IsAssigned : (o : Option A) (v : A) → IsAssigned o (some v) (filled (built o))
  filled-IsAssigned none v = (tt, refl, refl, λ e. cc e)
  filled-IsAssigned (some w) v = (tt, refl)

  assign-raw :
      (copy : A → Option A) (s : Storage A) (b : Bool)
      → IsValidOption s b
      → IsAssigned
          (copied copy (option_of s))
          (option_of s)
          (copy_value copy (record { storage = s; has_value = b }) raw)
  assign-raw copy raw false h = (tt, refl)
  assign-raw copy raw true h = absurd h
  assign-raw copy (live v) false h = absurd h
  assign-raw copy (live v) true h = unfold construct in unfold read in filled-IsAssigned (copy v) v

  assign-fields :
      (copy : A → Option A) (s t : Storage A) (b c : Bool)
      → IsValidOption s b
      → IsValidOption t c
      → IsAssigned (copied copy (option_of t)) (option_of t) (
          assign_option copy false
            (record { storage = s; has_value = b })
            (record { storage = t; has_value = c }))
  unfolding assign_option
  assign-fields copy raw t false c h k = assign-raw copy t c k
  assign-fields copy raw t true c h k = absurd h
  assign-fields copy (live v) t true c h k = assign-raw copy t c k
  assign-fields copy (live v) t false c h k = absurd h

  -- operator= of two valid Options leaves a valid Option and has no undefined behaviour: it holds a
  -- copy of the other's value, or its own where the two are one object; where the copy constructor
  -- throws, it holds none.
  pub assign_option-IsAssigned :
      (copy : A → Option A) (same : Bool) (o other : OptionObject A)
      → IsValidOption o.storage o.has_value
      → IsValidOption other.storage other.has_value
      → IsAssigned
          (if same then option_of o.storage else copied copy (option_of other.storage))
          (option_of other.storage)
          (assign_option copy same o other)
  assign_option-IsAssigned copy true o other h k = unfold assign_option in (h, refl)
  assign_option-IsAssigned copy false o other h k =
      assign-fields copy o.storage other.storage o.has_value other.has_value h k

module _ {T E : Type 0} where
  abbrev pub IsValidResult : Union T E → Bool → Type 0
  IsValidResult (live_t v) true = Unit
  IsValidResult (live_e e) false = Unit
  IsValidResult _ _ = ⊥

  -- The operation throws, and the destructor of what it leaves has undefined behaviour.
  abbrev pub EndsBadly : Effect (ResultObject T E) → Type 0
  EndsBadly (thrown t) = end_result t ≡ fault
  EndsBadly _ = ⊥

  assign-throws :
      (c : Copies T E) (s : Union T E) (b : Bool) (v : T)
      → IsValidResult s b
      → c.copy_t v ≡ none
      → EndsBadly (
          assign_result c false
            (record { storage = s; is_ok = b })
            (record { storage = live_t v; is_ok = true }))
  unfolding assign_result end_result
  assign-throws c empty true v h e = absurd h
  assign-throws c empty false v h e = absurd h
  assign-throws c (live_t w) false v h e = absurd h
  assign-throws c (live_e w) true v h e = absurd h
  assign-throws c (live_t w) true v h e = rw e refl
  assign-throws c (live_e w) false v h e = rw e refl

  -- operator= of Result is not safe: from a valid Result and an Ok one whose value's copy constructor
  -- throws, it leaves an object whose destructor has undefined behaviour.
  pub assign_result-EndsBadly :
      (c : Copies T E) (r : ResultObject T E) (v : T)
      → IsValidResult r.storage r.is_ok
      → c.copy_t v ≡ none
      → EndsBadly (assign_result c false r (record { storage = live_t v; is_ok = true }))
  assign_result-EndsBadly c r v h e = assign-throws c r.storage r.is_ok v h e

  assign-faithful :
      (c : Copies T E) (s t : Union T E) (a b : Bool)
      → ((v : T) → c.copy_t v ≡ some v)
      → ((e : E) → c.copy_e e ≡ some e)
      → IsValidResult s a
      → IsValidResult t b
      → assign_result c false
          (record { storage = s; is_ok = a })
          (record { storage = t; is_ok = b })
        ≡ done (record { storage = t; is_ok = b })
  unfolding assign_result
  assign-faithful c empty t true b ct ce h k = absurd h
  assign-faithful c empty t false b ct ce h k = absurd h
  assign-faithful c (live_t w) t false b ct ce h k = absurd h
  assign-faithful c (live_e w) t true b ct ce h k = absurd h
  assign-faithful c (live_t w) empty true true ct ce h k = absurd k
  assign-faithful c (live_t w) empty true false ct ce h k = absurd k
  assign-faithful c (live_t w) (live_t v) true true ct ce h k = rw (ct v) refl
  assign-faithful c (live_t w) (live_t v) true false ct ce h k = absurd k
  assign-faithful c (live_t w) (live_e v) true true ct ce h k = absurd k
  assign-faithful c (live_t w) (live_e v) true false ct ce h k = rw (ce v) refl
  assign-faithful c (live_e w) empty false true ct ce h k = absurd k
  assign-faithful c (live_e w) empty false false ct ce h k = absurd k
  assign-faithful c (live_e w) (live_t v) false true ct ce h k = rw (ct v) refl
  assign-faithful c (live_e w) (live_t v) false false ct ce h k = absurd k
  assign-faithful c (live_e w) (live_e v) false true ct ce h k = absurd k
  assign-faithful c (live_e w) (live_e v) false false ct ce h k = rw (ce v) refl

  -- Where the copy constructors do not throw and give equal values, operator= of valid Results has no
  -- undefined behaviour and leaves the other Result, or its own where the two objects are one.
  pub assign_result_lem :
      (c : Copies T E) (same : Bool) (r other : ResultObject T E)
      → ((v : T) → c.copy_t v ≡ some v)
      → ((e : E) → c.copy_e e ≡ some e)
      → IsValidResult r.storage r.is_ok
      → IsValidResult other.storage other.is_ok
      → assign_result c same r other ≡ done (if same then r else other)
  assign_result_lem c true r other ct ce h k = unfold assign_result in refl
  assign_result_lem c false r other ct ce h k =
      assign-faithful c r.storage other.storage r.is_ok other.is_ok ct ce h k
