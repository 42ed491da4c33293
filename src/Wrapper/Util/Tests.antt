-- ===== src/Wrapper/Util/Tests.antt =====
-- Runs of the wrappers of docs/util/OptionResult.hpp, and their properties at concrete inputs.
use selfserv.Base.{ℕ, ◌≡◌, refl, true, false, none, some, [], ◌∷◌, ltb, if◌then◌else◌}
use selfserv.Wrapper.Storage.{live, done}
use selfserv.Wrapper.Maybe.{OptionObject, assign_option}
use selfserv.Wrapper.Either.{live_t, live_e}
use selfserv.Wrapper.Util.{Copying}
use selfserv.Wrapper.Util.Maybe.{
  Holder, empty_holder, holder_value, reset_holder, replace, assign_holder,
}
use selfserv.Wrapper.Util.Either.{
  st_ok, st_err, TaggedResult, Sides, default_outcome, make_ok, make_err, copy_outcome,
  assign_outcome,
}
use selfserv.Wrapper.Util.Assigned.{AreBoth, assign_holder-assign_option}
use selfserv.Wrapper.Util.History.{
  resetting, replacing, assigning, SomeHeld, changes, change_values, changes-SomeHeld,
}
use selfserv.Wrapper.Util.Emptied.{
  nothing, a_value, an_error, IsHollow, LeavesFault, assign_outcome_lem, assign_outcome-IsHollow,
  assign_outcome-LeavesFault,
}

-- A type whose copies throw on numbers from 10 on, and whose operator= leaves 0 there.
abbrev small : Copying ℕ
small = record {
  copy = λ n. if ltb n 10 then some n else none;
  assign = λ m n. if ltb n 10 then (n, false) else (0, true);
}

abbrev plain : Copying ℕ
plain = record { copy = λ n. some n; assign = λ m n. (n, false) }

abbrev holding : ℕ → Holder ℕ
holding n = record { m_has = true; m_store = live n }

changes-SomeHeld_example :
    SomeHeld
      (change_values small none (replacing 12 ∷ replacing 3 ∷ assigning (holding 12) ∷ []))
      (changes small empty_holder (replacing 12 ∷ replacing 3 ∷ assigning (holding 12) ∷ []))
changes-SomeHeld_example =
    changes-SomeHeld small empty_holder (replacing 12 ∷ replacing 3 ∷ assigning (holding 12) ∷ [])
      tt (tt, tt)

changes-throwing :
    changes small empty_holder (replacing 12 ∷ replacing 3 ∷ assigning (holding 12) ∷ [])
    ≡ some (holding 0)
unfolding changes replace assign_holder reset_holder
changes-throwing = refl

changes-reset : changes small (holding 3) (resetting ∷ []) ≡ some empty_holder
unfolding changes replace assign_holder reset_holder
changes-reset = refl

holder_value-none : holder_value {A = ℕ} empty_holder ≡ none
unfolding holder_value
holder_value-none = refl

abbrev option_holding : ℕ → OptionObject ℕ
option_holding n = record { storage = live n; has_value = true }

assign_holder-assign_option_example :
    AreBoth
      (some 4)
      (assign_holder plain false (holding 3) (holding 4))
      (assign_option plain.copy false (option_holding 5) (option_holding 4))
assign_holder-assign_option_example =
    assign_holder-assign_option plain (holding 3) (holding 4) (option_holding 5) (option_holding 4)
      (λ v. refl) (λ w v. refl) tt tt tt tt refl

abbrev sides : Sides ℕ ℕ
sides = record { ok_side = small; err_side = small }

abbrev plain_sides : Sides ℕ ℕ
plain_sides = record { ok_side = plain; err_side = plain }

abbrev ok_holding : ℕ → TaggedResult ℕ ℕ
ok_holding n = record { m_store = live_t n; m_state = st_ok; m_has = true }

abbrev err_holding : ℕ → TaggedResult ℕ ℕ
err_holding n = record { m_store = live_e n; m_state = st_err; m_has = true }

assign_outcome_lem_run :
    assign_outcome plain_sides false (err_holding 1) (ok_holding 2) ≡ done (ok_holding 2)
assign_outcome_lem_run =
    assign_outcome_lem plain_sides false (err_holding 1) (ok_holding 2) (λ v. refl, λ w v. refl)
      (λ v. refl, λ w v. refl) (an_error 1) (a_value 2)

assign_outcome-IsHollow_example :
    IsHollow (assign_outcome sides false (ok_holding 2) default_outcome)
assign_outcome-IsHollow_example =
    assign_outcome-IsHollow sides (ok_holding 2) default_outcome (a_value 2) (nothing st_err) refl
      refl

-- A type whose copies and operator= always throw.
abbrev throwing : Copying ℕ
throwing = record { copy = λ n. none; assign = λ m n. (m, true) }

assign_outcome-LeavesFault_run : LeavesFault true (
    assign_outcome
      (record { ok_side = throwing; err_side = small })
      false
      (err_holding 1)
      (ok_holding 2))
assign_outcome-LeavesFault_run =
    assign_outcome-LeavesFault (record { ok_side = throwing; err_side = small }) (err_holding 1) 2
      refl (λ w. refl) (an_error 1)

make_ok-holding : make_ok sides 3 ≡ done (ok_holding 3)
unfolding make_ok
make_ok-holding = refl

make_err-holding : make_err sides 4 ≡ done (err_holding 4)
unfolding make_err
make_err-holding = refl

copy_outcome-default : copy_outcome sides default_outcome ≡ done default_outcome
unfolding copy_outcome
copy_outcome-default = refl
