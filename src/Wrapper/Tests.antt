-- ===== src/Wrapper/Tests.antt =====
-- Runs of the wrappers, and their properties at concrete inputs.
use selfserv.Base.{ℕ, ◌≡◌, refl, true, false, Option, none, some, ltb, if◌then◌else◌}
use selfserv.Wrapper.Storage.{live, done, fault}
use selfserv.Wrapper.Maybe.{OptionObject, new_none, assign_option, unwrap_option}
use selfserv.Wrapper.Either.{ResultObject, Copies, live_t, live_e, assign_result, new_err}
use selfserv.Wrapper.Assign.{
  IsAssigned, EndsBadly, assign_option-IsAssigned, assign_result-EndsBadly, assign_result_lem,
}

-- A copy constructor that throws on numbers from 10 on.
abbrev copy_small : ℕ → Option ℕ
copy_small n = if ltb n 10 then some n else none

abbrev holds : ℕ → OptionObject ℕ
holds n = record { storage = live n; has_value = true }

assign_option-IsAssigned_example :
    IsAssigned none (some 12) (assign_option copy_small false (holds 3) (holds 12))
assign_option-IsAssigned_example =
    assign_option-IsAssigned copy_small false (holds 3) (holds 12) tt tt

assign_option-small : assign_option copy_small false new_none (holds 4) ≡ done (holds 4)
unfolding assign_option
assign_option-small = refl

unwrap_option-none : unwrap_option {A = ℕ} new_none ≡ none
unfolding unwrap_option
unwrap_option-none = refl

abbrev copies : Copies ℕ ℕ
copies = record { copy_t = copy_small; copy_e = copy_small }

abbrev failure : ResultObject ℕ ℕ
failure = record { storage = live_e 1; is_ok = false }

assign_result-EndsBadly_example :
    EndsBadly (assign_result copies false failure (record { storage = live_t 12; is_ok = true }))
assign_result-EndsBadly_example = assign_result-EndsBadly copies failure 12 tt refl

new_err-throws : new_err {T = ℕ} copies 12 ≡ fault
unfolding new_err
new_err-throws = refl

abbrev plain_copies : Copies ℕ ℕ
plain_copies = record { copy_t = λ n. some n; copy_e = λ n. some n }

assign_result_lem_example :
    assign_result plain_copies false failure (record { storage = live_t 12; is_ok = true })
    ≡ done (record { storage = live_t 12; is_ok = true })
assign_result_lem_example =
    assign_result_lem plain_copies false failure (record { storage = live_t 12; is_ok = true })
      (λ n. refl) (λ n. refl) tt tt
