-- ===== src/Wrapper/Util/Emptied.antt =====
-- What operator= leaves of a Result of docs/util/OptionResult.hpp.
use selfserv.Base.{◌≡◌, refl, sym, subst, not, Bool, true, false, none, some, if◌then◌else◌}
use selfserv.Wrapper.Storage.{Effect, done, thrown, fault}
use selfserv.Wrapper.Either.{Union, empty, live_t, live_e}
use selfserv.Wrapper.Util.{Copying}
use selfserv.Wrapper.Util.Either.{
  OutcomeState, st_ok, st_err, is_st_ok, TaggedResult, Sides, outcome_ok, ok_value, left_ok,
  destroy_outcome, assign_outcome,
}

abbrev pub IsFaithful : {A : Type 0} → Copying A → Type 0
IsFaithful {A} c = ((v : A) → c.copy v ≡ some v) × ((w v : A) → c.assign w v ≡ (v, false))

-- The flag says whether there is an object, and then the state says of which type.
pub data IsUnion (T E : Type 0) : Union T E → OutcomeState → Bool → Type 0 where
  nothing : (s : OutcomeState) → IsUnion T E empty s false
  a_value : (v : T) → IsUnion T E (live_t v) st_ok true
  an_error : (e : E) → IsUnion T E (live_e e) st_err true

module _ {T E : Type 0} where
  abbrev pub IsOutcome : TaggedResult T E → Type 0
  IsOutcome r = IsUnion T E r.m_store r.m_state r.m_has

  -- A Result with no object, in the state of `r`.
  abbrev pub emptied : TaggedResult T E → TaggedResult T E
  emptied r = record { m_store = empty; m_state = r.m_state; m_has = false }

  -- What operator= is to leave of `r`.
  abbrev pub assigned : TaggedResult T E → TaggedResult T E → TaggedResult T E
  assigned r other = if other.m_has then other else emptied r

  assign-fields :
      (c : Sides T E) (u w : Union T E) (s t : OutcomeState) (a b : Bool)
      → IsFaithful c.ok_side
      → IsFaithful c.err_side
      → IsUnion T E u s a
      → IsUnion T E w t b
      → assign_outcome c false
          (record { m_store = u; m_state = s; m_has = a })
          (record { m_store = w; m_state = t; m_has = b })
        ≡ done (
            assigned
              (record { m_store = u; m_state = s; m_has = a })
              (record { m_store = w; m_state = t; m_has = b }))
  unfolding assign_outcome
  assign-fields c _ _ _ _ _ _ f g (nothing st_ok) (nothing st_ok) = refl
  assign-fields c _ _ _ _ _ _ f g (nothing st_ok) (nothing st_err) = refl
  assign-fields c _ _ _ _ _ _ f g (nothing st_ok) (a_value v) = rw (f.0 v) refl
  assign-fields c _ _ _ _ _ _ f g (nothing st_ok) (an_error e) = rw (g.0 e) refl
  assign-fields c _ _ _ _ _ _ f g (nothing st_err) (nothing st_ok) = refl
  assign-fields c _ _ _ _ _ _ f g (nothing st_err) (nothing st_err) = refl
  assign-fields c _ _ _ _ _ _ f g (nothing st_err) (a_value v) = rw (f.0 v) refl
  assign-fields c _ _ _ _ _ _ f g (nothing st_err) (an_error e) = rw (g.0 e) refl
  assign-fields c _ _ _ _ _ _ f g (a_value w) (nothing st_ok) = refl
  assign-fields c _ _ _ _ _ _ f g (a_value w) (nothing st_err) = refl
  assign-fields c _ _ _ _ _ _ f g (a_value w) (a_value v) = rw (f.1 w v) refl
  assign-fields c _ _ _ _ _ _ f g (a_value w) (an_error e) = rw (g.0 e) refl
  assign-fields c _ _ _ _ _ _ f g (an_error w) (nothing st_ok) = refl
  assign-fields c _ _ _ _ _ _ f g (an_error w) (nothing st_err) = refl
  assign-fields c _ _ _ _ _ _ f g (an_error w) (a_value v) = rw (f.0 v) refl
  assign-fields c _ _ _ _ _ _ f g (an_error w) (an_error e) = rw (g.1 w e) refl

  abbrev pub assigned_to : Bool → TaggedResult T E → TaggedResult T E → TaggedResult T E
  assigned_to same r other = if same then r else assigned r other

  -- Where the copy constructors and the operator= of both value types give equal values and do not
  -- throw, operator= of valid Results has no undefined behaviour: it leaves the other Result where
  -- that one has an object, and else no object in the state that was there, and its own Result where
  -- the two objects are one.
  pub assign_outcome_lem :
      (c : Sides T E) (same : Bool) (r other : TaggedResult T E)
      → IsFaithful c.ok_side
      → IsFaithful c.err_side
      → IsOutcome r
      → IsOutcome other
      → assign_outcome c same r other ≡ done (assigned_to same r other)
  assign_outcome_lem c true r other f g h k = unfold assign_outcome in refl
  assign_outcome_lem c false r other f g h k =
      assign-fields c r.m_store other.m_store r.m_state other.m_state r.m_has other.m_has f g h k

  -- The operation returns a Result that IsOk says is ok, and whose Ok reads an object that is not
  -- there.
  abbrev pub IsHollow : Effect (TaggedResult T E) → Type 0
  IsHollow (done t) = (outcome_ok t ≡ true) × (ok_value t ≡ some fault)
  IsHollow _ = ⊥

  fields-IsHollow :
      (c : Sides T E) (u w : Union T E) (s t : OutcomeState) (a : Bool)
      → IsUnion T E u s a
      → IsUnion T E w t false
      → s ≡ st_ok
      → IsHollow (
          assign_outcome c false
            (record { m_store = u; m_state = s; m_has = a })
            (record { m_store = w; m_state = t; m_has = false }))
  unfolding assign_outcome ok_value
  fields-IsHollow c _ _ _ _ _ (nothing st_ok) (nothing st_ok) e = (refl, refl)
  fields-IsHollow c _ _ _ _ _ (nothing st_ok) (nothing st_err) e = (refl, refl)
  fields-IsHollow c _ _ _ _ _ (nothing st_err) k e = cc e
  fields-IsHollow c _ _ _ _ _ (a_value v) (nothing st_ok) e = (refl, refl)
  fields-IsHollow c _ _ _ _ _ (a_value v) (nothing st_err) e = (refl, refl)
  fields-IsHollow c _ _ _ _ _ (an_error x) k e = cc e

  -- operator= does not take over that the other Result is an error, where that one has no object, as
  -- Result() leaves it: from a valid Result that is ok it leaves one that IsOk still says is ok, and
  -- whose Ok reads an object that is not there.
  pub assign_outcome-IsHollow :
      (c : Sides T E) (r other : TaggedResult T E)
      → IsOutcome r
      → IsOutcome other
      → r.m_state ≡ st_ok
      → other.m_has ≡ false
      → IsHollow (assign_outcome c false r other)
  assign_outcome-IsHollow c r other h k e n =
      subst (λ b. IsHollow (assign_outcome c false r (record other { m_has = b }))) (sym n)
        (fields-IsHollow c r.m_store other.m_store r.m_state other.m_state r.m_has h
          (subst (IsUnion T E other.m_store other.m_state) n k) e)

  -- The operation throws, and the destructor of what it leaves has undefined behaviour or has none.
  abbrev pub LeavesFault : Bool → Effect (TaggedResult T E) → Type 0
  LeavesFault true (thrown t) = destroy_outcome t ≡ fault
  LeavesFault false (thrown t) = destroy_outcome t ≡ done (emptied t)
  LeavesFault _ _ = ⊥

  left_ok-throws :
      (r : TaggedResult T E) (p : T × Bool)
      → p.1 ≡ true
      → LeavesFault false (left_ok (record r { m_state = st_ok; m_has = true }) p)
  unfolding destroy_outcome
  left_ok-throws r (v, true) e = refl
  left_ok-throws r (v, false) e = cc e

  throws-fields :
      (c : Sides T E) (u : Union T E) (s : OutcomeState) (a : Bool) (v : T)
      → c.ok_side.copy v ≡ none
      → ((w : T) → (c.ok_side.assign w v).1 ≡ true)
      → IsUnion T E u s a
      → LeavesFault (not (is_st_ok s)) (
          assign_outcome c false
            (record { m_store = u; m_state = s; m_has = a })
            (record { m_store = live_t v; m_state = st_ok; m_has = true }))
  unfolding assign_outcome destroy_outcome
  throws-fields c _ _ _ v e x (nothing st_ok) = rw e refl
  throws-fields c _ _ _ v e x (nothing st_err) = rw e refl
  throws-fields c _ _ _ v e x (a_value w) =
      left_ok-throws (record { m_store = live_t w; m_state = st_ok; m_has = true })
        (c.ok_side.assign w v) (x w)
  throws-fields c _ _ _ v e x (an_error w) = rw e refl

  -- An exception in operator= from an Ok Result, by the copy constructor or the operator= of its
  -- value: of a valid Result that is ok it leaves one that the destructor ends cleanly, and of one
  -- that is an error it leaves one whose destructor has undefined behaviour.
  pub assign_outcome-LeavesFault :
      (c : Sides T E) (r : TaggedResult T E) (v : T)
      → c.ok_side.copy v ≡ none
      → ((w : T) → (c.ok_side.assign w v).1 ≡ true)
      → IsOutcome r
      → LeavesFault
          (not (outcome_ok r))
          (assign_outcome c false r (record { m_store = live_t v; m_state = st_ok; m_has = true }))
  assign_outcome-LeavesFault c r v e x h = throws-fields c r.m_store r.m_state r.m_has v e x h
