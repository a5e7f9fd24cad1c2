-- ===== src/Strings/Laws.antt =====
-- The plural of a word, and back: packages/shared/string.ts.
use mathlib.Core.Option.{bind}
use openfaith.Common.{
  inl, inr, ◌≡◌, refl, arith, true, false, ◌∷◌, [], reverse, some, Text, to_lower, ◌↔◌, ℕ,
  reverse-reverse, Bool-cases, ap, sym, ◌∙◌,
}
use openfaith.Strings.{
  is_lossy, misleads, singular_of_es, after_consonant, is_sibilant, regular_plural,
  regular_singular, is_vowel, is_unlisted, pluralize, singularize,
}

regular_back : (r : Text) → is_lossy r ≡ false → regular_singular (regular_plural r) ≡ r
unfolding regular_singular regular_plural is_lossy misleads singular_of_es after_consonant
    is_sibilant is_vowel
regular_back [] fine = refl
regular_back (c ∷ []) fine = ground arith
regular_back (c ∷ d ∷ r) fine = ground arith

regular_lost : (r : Text) → is_lossy r ≡ true → ¬ (regular_singular (regular_plural r) ≡ r)
unfolding regular_singular regular_plural is_lossy misleads singular_of_es after_consonant
    is_sibilant is_vowel
regular_lost [] lossy same = ground arith
regular_lost (c ∷ []) lossy same = ground arith
regular_lost (c ∷ d ∷ r) lossy same = ground arith

pluralize_unlisted :
    (c : ℕ) (w : Text)
    → is_unlisted (to_lower (c ∷ w)) ≡ true
    → pluralize (c ∷ w) ≡ some (reverse (regular_plural (reverse (c ∷ w))))
unfolding pluralize is_unlisted
pluralize_unlisted c w plain = ground arith

singularize_unlisted :
    (w : Text)
    → is_unlisted (to_lower w) ≡ true
    → singularize w ≡ some (reverse (regular_singular (reverse w)))
unfolding singularize is_unlisted regular_singular
singularize_unlisted [] plain = refl
singularize_unlisted (c ∷ w) plain = ground arith

back_iff : (r : Text) → (regular_singular (regular_plural r) ≡ r) ↔ (is_lossy r ≡ false)
back_iff r = (
  λ same. elim (Bool-cases (is_lossy r)) [
    | inl lossy ↦ absurd (regular_lost r lossy same)
    | inr fine ↦ fine
  ],
  regular_back r,
)

back_and_forth :
    (c : ℕ) (w : Text)
    → is_unlisted (to_lower (c ∷ w)) ≡ true
    → is_unlisted (to_lower (reverse (regular_plural (reverse (c ∷ w))))) ≡ true
    → (bind (pluralize (c ∷ w)) singularize)
      ≡ some (reverse (regular_singular (regular_plural (reverse (c ∷ w)))))
unfolding bind regular_singular
back_and_forth c w plain plain_plural =
    rw
      (
        pluralize_unlisted c w plain,
        singularize_unlisted (reverse (regular_plural (reverse (c ∷ w)))) plain_plural,
        reverse-reverse (regular_plural (reverse (c ∷ w))),
      )
      refl

some_injective : {a b : Text} → some a ≡ some b → a ≡ b
some_injective e = cc

reversed_iff : (r w : Text) → (some (reverse r) ≡ some w) ↔ (r ≡ reverse w)
reversed_iff r w = (
  λ same. sym (reverse-reverse r) ∙ ap reverse (some_injective same),
  λ e. ap some (ap reverse e ∙ reverse-reverse w),
)

-- The tables and the inherited names say nothing of a word, nor of its plural by the rules. The plural
-- is then the one by the rules, and its singular is the word again exactly when the word ends neither
-- in u nor in an e after an f, an i, a v, a sibilant, or an o after a consonant.
pub singularize-pluralize :
    (c : ℕ) (w : Text)
    → is_unlisted (to_lower (c ∷ w)) ≡ true
    → is_unlisted (to_lower (reverse (regular_plural (reverse (c ∷ w))))) ≡ true
    → (bind (pluralize (c ∷ w)) singularize ≡ some (c ∷ w)) ↔ (is_lossy (reverse (c ∷ w)) ≡ false)
singularize-pluralize c w plain plain_plural = rw (back_and_forth c w plain plain_plural) (
  λ same. (back_iff (reverse (c ∷ w))).0 ((reversed_iff _ (c ∷ w)).0 same),
  λ fine. (reversed_iff _ (c ∷ w)).1 ((back_iff (reverse (c ∷ w))).1 fine),
)
