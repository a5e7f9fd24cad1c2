-- ===== src/EmailChange.antt =====
-- packages/auth/plugins/email-change-otp/index.ts: changing an email address by a one-time code. The
-- internal adapter of better-auth, which stores users and codes, is a parameter, and so are the
-- lower case of a text and the test of an email address.
pub mod Numbers
pub mod Attempts
use openfaith.Common.{
  ℕ, zero, suc, ◌+◌, ◌*◌, ◌-◌, ◌/◌, ◌%◌, Bool, true, false, ◌&&◌, List, [], ◌∷◌, ◌++◌, Option, none,
  some, if◌then◌else◌, ltb, leb, ◌==◌, Text, lit, ◌===◌,
}

-- A digit at the front of the digits of a number, in base ten.
digits : ℕ → ℕ → Text → Text
digits zero n acc = acc
digits (suc fuel) n acc =
    let rest = digits fuel (n / 10) ((b'0' + n % 10) ∷ acc) in
    if ltb n 10 then (b'0' + n) ∷ acc else rest

-- The number in a template literal; there are no more digits than the number and one.
unfoldable pub show_number : ℕ → Text
unfolding digits
show_number n = digits (suc n) n []

abbrev pub is_digit : ℕ → Bool
is_digit c = leb b'0' c && leb c b'9'

parse_from : ℕ → Text → ℕ
parse_from acc [] = acc
parse_from acc (c ∷ s) =
    let rest = parse_from (acc * 10 + (c - b'0')) s in if is_digit c then rest else acc

-- `Number.parseInt(s, 10)`, of a text without white space or a sign in front; none is NaN.
unfoldable pub parse_int : Text → Option ℕ
unfolding parse_from
parse_int [] = none
parse_int (c ∷ s) = if is_digit c then some (parse_from 0 (c ∷ s)) else none

abbrev pub prepend : ℕ → Text × Text → Text × Text
prepend c (before, after) = (c ∷ before, after)

abbrev last_or : ℕ → Text → Option (Text × Text) → Option (Text × Text)
last_or c s (some parts) = some (prepend c parts)
last_or c s none = if c == b':' then some ([], s) else none

unfoldable pub last_colon : Text → Option (Text × Text)
last_colon [] = none
last_colon (c ∷ s) = last_or c s (last_colon s)

-- `splitAtLastColon`
unfoldable pub split_at_last_colon : Text → Text × Text
split_at_last_colon s = elim (last_colon s) [ none ↦ (s, lit "0") | some parts ↦ parts ]

pub record Verification : Type 0 where
  pub id : Text
  pub identifier : Text
  pub value : Text
  pub expires_at : ℕ

-- The internal adapter, over its own state.
pub record InternalAdapter (S : Type 0) : Type 0 where
  pub find_verification : Text → S → Option Verification
  pub delete_verification : Text → S → S
  pub update_verification : (id value : Text) → S → S
  -- none is the error that is caught
  pub create_verification : (identifier value : Text) (expires_at : ℕ) → S → Option S
  pub delete_by_identifier : Text → S → S
  pub has_user : Text → S → Bool
  pub update_user : (user email : Text) → S → S

pub data Answer : Type 0 where
  sent verified invalid_email same_email taken no_pending_request otp_expired too_many_attempts
        invalid_otp failure :
      Answer

abbrev pub or_three : ℕ → ℕ
or_three zero = 3
or_three (suc n) = suc n

-- `attempts && Number.parseInt(attempts, 10) >= allowedAttempts`
unfoldable pub is_used_up : ℕ → Text → Bool
is_used_up allowed [] = false
is_used_up allowed (c ∷ s) = elim (parse_int (c ∷ s)) [ none ↦ false | some n ↦ leb allowed n ]

abbrev show_next : Option ℕ → Text
show_next none = lit "NaN"
show_next (some n) = show_number (n + 1)

-- `Number.parseInt(attempts || '0', 10) + 1`
unfoldable pub next_attempt : Text → Text
next_attempt [] = show_number 1
next_attempt (c ∷ s) = show_next (parse_int (c ∷ s))

-- `email-change-${session.user.id}-${newEmail}`
unfoldable pub identifier_of : (user email : Text) → Text
identifier_of user email = lit "email-change-" ++ user ++ b'-' ∷ email

-- `allowed_attempts` of 0 stands for an option that is missing.
module _ {S : Type 0} (adapter : InternalAdapter S) (lower : Text → Text) (is_email : Text → Bool)
    (allowed_attempts : ℕ) where
  create_or_again : (identifier value : Text) → ℕ → S → Option S → Answer × S
  create_or_again identifier value expires_at s (some s') = (sent, s')
  create_or_again identifier value expires_at s none =
      let cleared = adapter.delete_by_identifier identifier s in
      elim (adapter.create_verification identifier value expires_at cleared) [
        | none ↦ (failure, cleared)
        | some s' ↦ (sent, s')
      ]

  -- `sendEmailChangeVerification`, up to the mail that it sends
  unfoldable pub send_email_change_verification :
      (user current_email new_email otp : Text) (now expires_in : ℕ) → S → Answer × S
  unfolding create_or_again
  send_email_change_verification user current_email new_email otp now expires_in s =
      let email = lower new_email in
      let identifier = identifier_of user email in
      let value = otp ++ b':' ∷ b'0' ∷ [] in
      let expires_at = now + expires_in * 1000 in
      if is_email email
      then if lower email === lower (lower current_email)
        then (same_email, s)
        else if adapter.has_user email s
        then (taken, s)
        else create_or_again identifier value expires_at s
            (adapter.create_verification identifier value expires_at s)
      else (invalid_email, s)

  change_email : Text → Text → Verification → S → Answer × S
  change_email user email v s =
      let deleted = adapter.delete_verification v.id s in
      if adapter.has_user email deleted
      then (taken, deleted)
      else (verified, adapter.update_user user email deleted)

  check_code : Text → Text → Text → Verification → Text × Text → S → Answer × S
  check_code user email otp v (otp_value, attempts) s =
      if is_used_up (or_three allowed_attempts) attempts
      then (too_many_attempts, adapter.delete_verification v.id s)
      else if otp_value === otp
      then change_email user email v s
      else (
        invalid_otp,
        adapter.update_verification v.id (otp_value ++ b':' ∷ next_attempt attempts) s,
      )

  check_found : Text → Text → Text → ℕ → Option Verification → S → Answer × S
  check_found user email otp now none s = (no_pending_request, s)
  check_found user email otp now (some v) s =
      if ltb v.expires_at now
      then (otp_expired, adapter.delete_verification v.id s)
      else check_code user email otp v (split_at_last_colon v.value) s

  -- `verifyEmailChange`
  unfoldable pub verify_email_change : (user new_email otp : Text) (now : ℕ) → S → Answer × S
  unfolding check_found check_code change_email
  verify_email_change user new_email otp now s =
      let email = lower new_email in
      if is_email email
      then check_found user email otp now (adapter.find_verification (identifier_of user email) s) s
      else (invalid_email, s)
