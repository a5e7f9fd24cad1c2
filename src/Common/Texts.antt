-- ===== src/Common/Texts.antt =====
-- Text as a list of UTF-16 code units, which is what the source's `===`, `<` and `[i]` read.
use Prim.Native.Nat.{ℕ, ◌+◌, ◌-◌}
use Prim.Native.Char.{code}
use Prim.Native.String.{String}
use mathlib.Core.Path.{◌≡◌, refl}
use mathlib.Core.Logic.{◌↔◌}
use mathlib.Core.Bool.{Bool, true, false, ◌&&◌, ◌||◌}
use mathlib.Core.List.{List, [], ◌∷◌, map}
use native.Mathlib.Omega.{arith}
use openfaith.Common.Tests.{ltb, leb, ◌==◌, if◌then◌else◌}

abbrev pub Text : Type 0
Text = List ℕ

-- The code units of a literal.
unfoldable pub lit : String → Text
lit String.[] = []
lit (String.◌∷◌ c s) = code c ∷ lit s

-- `a === b`
infix 50 ◌===◌
unfoldable pub ◌===◌ : Text → Text → Bool
[] === [] = true
[] === (_ ∷ _) = false
(_ ∷ _) === [] = false
(a ∷ s) === (b ∷ t) = (a == b) && (s === t)

-- `s.toLowerCase()` and `s.toUpperCase()`, of ASCII texts
unfoldable pub lower_code : ℕ → ℕ
lower_code c = if leb b'A' c && leb c b'Z' then c + 32 else c

unfoldable pub upper_code : ℕ → ℕ
upper_code c = if leb b'a' c && leb c b'z' then c - 32 else c

abbrev pub to_lower : Text → Text
to_lower s = map lower_code s

abbrev pub to_upper : Text → Text
to_upper s = map upper_code s

-- `s.includes(c)`, for a text of one code unit
unfoldable pub has_code : ℕ → Text → Bool
has_code c [] = false
has_code c (d ∷ s) = (d == c) || has_code c s

-- `a < b`
unfoldable pub text_lt : Text → Text → Bool
text_lt [] [] = false
text_lt [] (_ ∷ _) = true
text_lt (_ ∷ _) [] = false
text_lt (a ∷ s) (b ∷ t) = ltb a b || ((a == b) && text_lt s t)

===-sound : (s t : Text) → (s === t) ≡ true → s ≡ t
unfolding ◌===◌
===-sound [] [] h = refl
===-sound [] (b ∷ t) h = ground arith
===-sound (a ∷ s) [] h = ground arith
===-sound (a ∷ s) (b ∷ t) h = ground (arith, ===-sound s t)

pub ===-refl : (s : Text) → (s === s) ≡ true
unfolding ◌===◌
===-refl [] = refl
===-refl (a ∷ s) = ground (arith, ===-refl s)

pub ===_iff : (s t : Text) → ((s === t) ≡ true) ↔ (s ≡ t)
===_iff s t = (===-sound s t, λ e. ground (arith, ===-refl s))

pub text_lt_irrefl : (s : Text) → text_lt s s ≡ false
unfolding text_lt
text_lt_irrefl [] = refl
text_lt_irrefl (a ∷ s) = ground (arith, text_lt_irrefl s)

-- Exactly one of the two orders holds between different texts.
pub text_lt-total : (s t : Text) → (s === t) ≡ false → text_lt s t ≡ false → text_lt t s ≡ true
unfolding text_lt ◌===◌
text_lt-total [] [] e h = ground arith
text_lt-total [] (b ∷ t) e h = ground arith
text_lt-total (a ∷ s) [] e h = refl
text_lt-total (a ∷ s) (b ∷ t) e h = ground (arith, text_lt-total s t)

pub text_lt-asym : (s t : Text) → text_lt s t ≡ true → text_lt t s ≡ false
unfolding text_lt
text_lt-asym [] [] h = refl
text_lt-asym [] (b ∷ t) h = refl
text_lt-asym (a ∷ s) [] h = ground arith
text_lt-asym (a ∷ s) (b ∷ t) h = ground (arith, text_lt-asym s t)
