-- ===== src/EmailChange/Attempts.antt =====
-- How often a code can be guessed.
use openfaith.Common.{
  ℕ, ◌+◌, ◌<◌, ◌≤◌, Bool, true, false, ◌≡◌, refl, ap, ◌∙◌, List, [], ◌∷◌, ◌++◌, Option, some,
  if◌then◌else◌, ltb, leb, length, Text, ◌===◌, All, arith, Bool-cases, inl, inr,
}
use openfaith.EmailChange.{
  show_number, parse_int, split_at_last_colon, Verification, InternalAdapter, Answer,
  too_many_attempts, invalid_otp, otp_expired, or_three, is_used_up, next_attempt, identifier_of,
  check_found, check_code, verify_email_change,
}
use openfaith.EmailChange.Numbers.{parse_int-show_number, split-value}

used_up-parsed :
    (allowed n : ℕ) (t : Text) → parse_int t ≡ some n → is_used_up allowed t ≡ leb allowed n
unfolding is_used_up parse_int
used_up-parsed allowed n [] h = cc
used_up-parsed allowed n (c ∷ s) h = rw (h, is_used_up) refl

next-parsed : (n : ℕ) (t : Text) → parse_int t ≡ some n → next_attempt t ≡ show_number (n + 1)
unfolding next_attempt parse_int
next-parsed n [] h = cc
next-parsed n (c ∷ s) h = rw (h, next_attempt) refl

-- The stored value for a code after some attempts.
abbrev pub value_of : Text → ℕ → Text
value_of code n = code ++ b':' ∷ show_number n

module _ {S : Type 0} (adapter : InternalAdapter S) (lower : Text → Text) (is_email : Text → Bool)
    (allowed_attempts : ℕ) (user new_email : Text) where
  abbrev pub stored : S → Option Verification
  stored s = adapter.find_verification (identifier_of user (lower new_email)) s

  -- An answer to a code at a time.
  abbrev pub attempt : Text × ℕ → S → Answer × S
  attempt (otp, now) s =
      verify_email_change adapter lower is_email allowed_attempts user new_email otp now s

  -- The state after one attempt after another.
  abbrev pub after_attempts : List (Text × ℕ) → S → S
  after_attempts [] s = s
  after_attempts (g ∷ guesses) s = after_attempts guesses (attempt g s).1

  -- Another code than the right one, in time.
  abbrev pub IsWrong : Text → ℕ → Text × ℕ → Type 0
  IsWrong code expires_at (otp, now) = ((code === otp) ≡ false) × (ltb expires_at now ≡ false)

  check_wrong :
      (v : Verification) (code otp email : Text) (n : ℕ) (s : S)
      → n < or_three allowed_attempts
      → (code === otp) ≡ false
      → check_code adapter lower is_email allowed_attempts user email otp v (code, show_number n) s
        ≡ (invalid_otp, adapter.update_verification v.id (value_of code (n + 1)) s)
  unfolding check_code
  check_wrong v code otp email n s below wrong =
      let open_ : leb (or_three allowed_attempts) n ≡ false = ground arith in
      rw
        (
          used_up-parsed (or_three allowed_attempts) n (show_number n) (parse_int-show_number n),
          open_,
          wrong,
          next-parsed n (show_number n) (parse_int-show_number n),
        )
        refl

  check_closed :
      (v : Verification) (code otp email : Text) (n : ℕ) (s : S)
      → or_three allowed_attempts ≤ n
      → check_code adapter lower is_email allowed_attempts user email otp v (code, show_number n) s
        ≡ (too_many_attempts, adapter.delete_verification v.id s)
  unfolding check_code
  check_closed v code otp email n s above =
      let closed : leb (or_three allowed_attempts) n ≡ true = ground arith in
      rw
        (
          used_up-parsed (or_three allowed_attempts) n (show_number n) (parse_int-show_number n),
          closed,
        )
        refl

  attempt_lem :
      (v : Verification) (code otp : Text) (n now : ℕ) (s : S)
      → is_email (lower new_email) ≡ true
      → stored s ≡ some v
      → v.value ≡ value_of code n
      → ltb v.expires_at now ≡ false
      → attempt (otp, now) s
        ≡ check_code adapter lower is_email allowed_attempts user
            (lower new_email)
            otp
            v
            (code, show_number n)
            s
  unfolding verify_email_change check_found
  attempt_lem v code otp n now s accepted found value live =
      rw (accepted, found, live)
        (ap
          (λ parts.
            check_code adapter lower is_email allowed_attempts user (lower new_email) otp v parts s)
          (ap split_at_last_colon value ∙ split-value code n))

  closed_lem :
      (v : Verification) (code otp : Text) (now : ℕ) (s : S)
      → is_email (lower new_email) ≡ true
      → stored s ≡ some v
      → v.value ≡ value_of code (or_three allowed_attempts)
      → (attempt (otp, now) s).0 ≡ (if ltb v.expires_at now then otp_expired else too_many_attempts)
  unfolding verify_email_change check_found
  closed_lem v code otp now s accepted found value = elim (Bool-cases (ltb v.expires_at now)) [
    | inl e ↦ rw (accepted, found, e) refl
    | inr e ↦ rw e (
        ap (λ (r : Answer × S). r.0)
          (attempt_lem v code otp (or_three allowed_attempts) now s accepted found value e
            ∙ check_closed v code otp (lower new_email) (or_three allowed_attempts) s
                (omega arith)))
  ]

  module _ (accepted : is_email (lower new_email) ≡ true)
      (find_update : (identifier value : Text) (s : S) (v : Verification)
        → adapter.find_verification identifier s ≡ some v
        → adapter.find_verification identifier (adapter.update_verification v.id value s)
          ≡ some (record v { value = value })) where
    wrong-stored :
        (v : Verification) (code otp : Text) (n now : ℕ) (s : S)
        → stored s ≡ some v
        → v.value ≡ value_of code n
        → n < or_three allowed_attempts
        → IsWrong code v.expires_at (otp, now)
        → stored (attempt (otp, now) s).1 ≡ some (record v { value = value_of code (n + 1) })
    wrong-stored v code otp n now s found value below (wrong, live) =
        ap (λ (r : Answer × S). stored r.1)
          (attempt_lem v code otp n now s accepted found value live
            ∙ check_wrong v code otp (lower new_email) n s below wrong)
        ∙ find_update (identifier_of user (lower new_email)) (value_of code (n + 1)) s v found

    attempts-stored :
        (guesses : List (Text × ℕ)) (v : Verification) (code : Text) (n : ℕ) (s : S)
        → stored s ≡ some v
        → v.value ≡ value_of code n
        → n + length guesses ≡ or_three allowed_attempts
        → All (IsWrong code v.expires_at) guesses
        → stored (after_attempts guesses s)
          ≡ some (record v { value = value_of code (or_three allowed_attempts) })
    attempts-stored [] v code n s found value count wrong =
        let all_used : n ≡ or_three allowed_attempts = omega (arith, count) in
        found ∙ ap (λ w. some (record v { value = w })) (value ∙ ap (value_of code) all_used)
    attempts-stored ((otp, now) ∷ guesses) v code n s found value count (w, ws) =
        let below : n < or_three allowed_attempts = omega (arith, count) in
        let next : n + 1 + length guesses ≡ or_three allowed_attempts = omega (arith, count) in
        attempts-stored guesses (record v { value = value_of code (n + 1) }) code (n + 1)
          (attempt (otp, now) s).1 (wrong-stored v code otp n now s found value below w) refl next
          ws

    -- Suppose that the store gives back a value that it was given by an update. After as many wrong
    -- guesses in time as are allowed, the right code is of no use: whatever is tried next, at any
    -- time, the answer is that there were too many attempts, or that the code has expired.
    pub after_attempts_lem :
        (guesses : List (Text × ℕ)) (v : Verification) (code : Text) (s : S) (otp : Text) (now : ℕ)
        → stored s ≡ some v
        → v.value ≡ value_of code 0
        → length guesses ≡ or_three allowed_attempts
        → All (IsWrong code v.expires_at) guesses
        → (attempt (otp, now) (after_attempts guesses s)).0
          ≡ (if ltb v.expires_at now then otp_expired else too_many_attempts)
    after_attempts_lem guesses v code s otp now found value count wrong =
        closed_lem (record v { value = value_of code (or_three allowed_attempts) }) code otp now
          (after_attempts guesses s) accepted
          (attempts-stored guesses v code 0 s found value (omega (arith, count)) wrong) refl
