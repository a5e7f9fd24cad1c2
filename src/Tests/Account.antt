-- ===== src/Tests/Account.antt =====
-- The theorems on the change of an email address, with a store for one code.
use openfaith.Common.{
  ℕ, true, false, ◌≡◌, refl, ap, List, [], ◌∷◌, Option, none, some, if◌then◌else◌, ltb, Text, ◌===◌,
}
use openfaith.EmailChange.{Verification, InternalAdapter, otp_expired, too_many_attempts}
use openfaith.EmailChange.Attempts.{value_of, attempt, after_attempts, after_attempts_lem}

abbrev updated : Text → Option Verification → Option Verification
updated value none = none
updated value (some v) = some (record v { value = value })

abbrev store : InternalAdapter (Option Verification)
store = record {
  find_verification = λ identifier s. s;
  delete_verification = λ id s. none;
  update_verification = λ id value s. updated value s;
  create_verification = λ identifier value expires_at s.
      some (
        some (record { id = []; identifier = identifier; value = value; expires_at = expires_at }));
  delete_by_identifier = λ identifier s. none;
  has_user = λ email s. false;
  update_user = λ user email s. s;
}

store-update :
    (identifier value : Text) (s : Option Verification) (v : Verification)
    → store.find_verification identifier s ≡ some v
    → store.find_verification identifier (store.update_verification v.id value s)
      ≡ some (record v { value = value })
store-update identifier value none v h = cc
store-update identifier value (some w) v h = ap (updated value) h

abbrev code : Text
code = b'4' ∷ b'2' ∷ []

abbrev pending : Verification
pending = record { id = []; identifier = []; value = value_of code 0; expires_at = 9 }

-- Three wrong guesses at the times 1, 2 and 3.
abbrev guesses : List (Text × ℕ)
guesses = ([], 1) ∷ (b'7' ∷ [], 2) ∷ (b'4' ∷ [], 3) ∷ []

after_attempts_lem_example :
    (attempt store
      (λ t. t)
      (λ t. true)
      3
      []
      []
      (code, 4)
      (after_attempts store (λ t. t) (λ t. true) 3 [] [] guesses (some pending))).0
    ≡ (if ltb 9 4 then otp_expired else too_many_attempts)
unfolding ◌===◌
after_attempts_lem_example =
    after_attempts_lem store (λ t. t) (λ t. true) 3 [] [] refl store-update guesses pending code
      (some pending) code 4 refl refl refl ((refl, refl), ((refl, refl), ((refl, refl), tt)))
