-- ===== src/EmailChange/Numbers.antt =====
-- The number of attempts in the stored value: what is written is read back.
use openfaith.Common.{
  ℕ, zero, suc, ◌+◌, ◌*◌, ◌-◌, ◌/◌, ◌%◌, ◌<◌, Bool, true, false, ◌≡◌, refl, ap, ◌∙◌, [], ◌∷◌, ◌++◌,
  none, some, ltb, ◌==◌, Text, arith, All, Bool-cases, inl, inr,
}
use openfaith.EmailChange.{
  digits, show_number, is_digit, parse_from, parse_int, last_colon, split_at_last_colon,
}

parse_from-digit :
    (a d : ℕ) (acc : Text) → d < 10 → parse_from a ((b'0' + d) ∷ acc) ≡ parse_from (a * 10 + d) acc
unfolding parse_from
parse_from-digit a d acc h =
    let is : is_digit (b'0' + d) ≡ true = ground arith in
    let value : (b'0' + d) - b'0' ≡ d = omega arith in rw (is, value) refl

parse_from-digits :
    (fuel n : ℕ) (acc : Text) → n < fuel → parse_from 0 (digits fuel n acc) ≡ parse_from n acc
unfolding digits
parse_from-digits zero n acc h = ground arith
parse_from-digits (suc fuel) n acc h = elim (Bool-cases (ltb n 10)) [
  | inl e ↦
      let small : n < 10 = ground arith in
      rw e (parse_from-digit 0 n acc small ∙ ap (λ m. parse_from m acc) (omega arith))
  | inr e ↦
      let smaller : n / 10 < fuel = ground arith in
      let digit : n % 10 < 10 = omega arith in
      let whole : n / 10 * 10 + n % 10 ≡ n = omega arith in
      rw e (
        parse_from-digits fuel (n / 10) ((b'0' + n % 10) ∷ acc) smaller
        ∙ parse_from-digit (n / 10) (n % 10) acc digit
        ∙ ap (λ m. parse_from m acc) whole)
]

starts_with_digit : Text → Bool
starts_with_digit [] = false
starts_with_digit (c ∷ s) = is_digit c

digits-start : (fuel n : ℕ) (acc : Text) → n < fuel → starts_with_digit (digits fuel n acc) ≡ true
unfolding digits starts_with_digit
digits-start zero n acc h = ground arith
digits-start (suc fuel) n acc h = elim (Bool-cases (ltb n 10)) [
  | inl e ↦ rw e (ground arith)
  | inr e ↦
      let smaller : n / 10 < fuel = ground arith in
      rw e (digits-start fuel (n / 10) ((b'0' + n % 10) ∷ acc) smaller)
]

parse_int-digit : (s : Text) → starts_with_digit s ≡ true → parse_int s ≡ some (parse_from 0 s)
unfolding parse_int starts_with_digit
parse_int-digit [] h = cc
parse_int-digit (c ∷ s) h = rw h refl

-- A number that is written in a template literal is read back by `parseInt`.
pub parse_int-show_number : (n : ℕ) → parse_int (show_number n) ≡ some n
unfolding show_number parse_from
parse_int-show_number n =
    let below : n < suc n = omega arith in
    parse_int-digit (digits (suc n) n []) (digits-start (suc n) n [] below)
    ∙ ap some (parse_from-digits (suc n) n [] below)

-- No colon in a text.
abbrev pub NoColon : Text → Type 0
NoColon s = All (λ c. (c == b':') ≡ false) s

digits-NoColon : (fuel n : ℕ) (acc : Text) → NoColon acc → NoColon (digits fuel n acc)
unfolding digits
digits-NoColon zero n acc h = h
digits-NoColon (suc fuel) n acc h = elim (Bool-cases (ltb n 10)) [
  | inl e ↦ rw e (ground arith, h)
  | inr e ↦ rw e (digits-NoColon fuel (n / 10) ((b'0' + n % 10) ∷ acc) (ground arith, h))
]

last_colon-none : (s : Text) → NoColon s → last_colon s ≡ none
unfolding last_colon
last_colon-none [] h = refl
last_colon-none (c ∷ s) (n, h) = rw (last_colon-none s h, n) refl

last_colon-join : (s t : Text) → NoColon t → last_colon (s ++ b':' ∷ t) ≡ some (s, t)
unfolding last_colon
last_colon-join [] t h = rw (last_colon-none t h) refl
last_colon-join (c ∷ s) t h = rw (last_colon-join s t h) refl

split-found :
    (s : Text) (parts : Text × Text) → last_colon s ≡ some parts → split_at_last_colon s ≡ parts
unfolding split_at_last_colon
split-found s parts h = rw (h, split_at_last_colon) refl

-- The stored value splits into the code, colons included, and the number of attempts.
pub split-value :
    (otp : Text) (n : ℕ) → split_at_last_colon (otp ++ b':' ∷ show_number n) ≡ (otp, show_number n)
unfolding show_number
split-value otp n =
    split-found _ _ (last_colon-join otp (digits (suc n) n []) (digits-NoColon (suc n) n [] tt))
