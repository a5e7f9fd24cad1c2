-- ===== src/Strings.antt =====
-- Words and their plurals: packages/shared/string.ts, for texts of ASCII.
pub mod Laws
use openfaith.Common.{
  ℕ, Bool, true, false, not, ◌&&◌, ◌||◌, List, [], ◌∷◌, ◌++◌, reverse, any, map, Option, none, some,
  if◌then◌else◌, find, ◌==◌, Text, lit, ◌===◌, to_lower, to_upper, lower_code, upper_code,
}

-- `irregularPlurals`
unfoldable pub irregular_plurals : List (Text × Text)
irregular_plurals =
    (lit "address", lit "addresses")
    ∷ (lit "campus", lit "campuses")
    ∷ (lit "child", lit "children")
    ∷ (lit "person", lit "people")
    ∷ []

abbrev second : Option (Text × Text) → Option Text
second none = none
second (some e) = some e.1

abbrev first : Option (Text × Text) → Option Text
first none = none
first (some e) = some e.0

-- `irregularPlurals[lower]`
unfoldable pub irregular_plural : Text → Option Text
irregular_plural lower = second (find (λ (e : Text × Text). e.0 === lower) irregular_plurals)

-- `irregularSingulars[lower]`
unfoldable pub irregular_singular : Text → Option Text
irregular_singular lower = first (find (λ (e : Text × Text). e.1 === lower) irregular_plurals)

-- `singularValues` has the word: the values of the table are its plurals.
unfoldable pub is_singular_value : Text → Bool
is_singular_value lower = any (λ (e : Text × Text). e.1 === lower) irregular_plurals

-- `String.capitalize`
abbrev pub capitalize : Text → Text
capitalize [] = []
capitalize (c ∷ s) = upper_code c ∷ s

abbrev starts_upper : Text → Bool
starts_upper [] = true
starts_upper (c ∷ s) = upper_code c == c

abbrev is_empty : Text → Bool
is_empty [] = true
is_empty (_ ∷ _) = false

-- `preserveCase`
unfoldable pub preserve_case : (original transformed : Text) → Text
preserve_case original transformed =
    if is_empty original
    then transformed
    else if original === to_upper original
    then to_upper transformed
    else if starts_upper original
    then capitalize (to_lower (capitalize transformed))
    else to_lower transformed

-- `'aeiou'.includes(c.toLowerCase())`
unfoldable pub is_vowel : ℕ → Bool
is_vowel c = let l = lower_code c in l == b'a' || l == b'e' || l == b'i' || l == b'o' || l == b'u'

-- The rules look at the end of a word. They are on the word reversed, the last letter first.

-- `/[sxz]$|[cs]h$/`
unfoldable pub is_sibilant : Text → Bool
is_sibilant [] = false
is_sibilant (c ∷ []) = c == b's' || c == b'x' || c == b'z'
is_sibilant (c ∷ d ∷ r) =
    c == b's' || c == b'x' || c == b'z' || (c == b'h' && (d == b'c' || d == b's'))

-- A letter after a consonant.
unfoldable pub after_consonant : ℕ → Text → Bool
after_consonant letter (c ∷ d ∷ r) = c == letter && not (is_vowel d)
after_consonant letter _ = false

abbrev drop_last : Text → Text
drop_last [] = []
drop_last (c ∷ r) = r

abbrev ends_in : ℕ → Text → Bool
ends_in letter [] = false
ends_in letter (c ∷ r) = c == letter

abbrev ends_in_two : ℕ → ℕ → Text → Bool
ends_in_two letter before (c ∷ d ∷ r) = c == letter && d == before
ends_in_two letter before _ = false

-- `oExceptions`
abbrev pub o_exceptions : List Text
o_exceptions = lit "photo" ∷ lit "piano" ∷ lit "halo" ∷ lit "solo" ∷ lit "pro" ∷ lit "auto" ∷ []

-- The plural of a regular word.
unfoldable pub regular_plural : Text → Text
regular_plural r =
    if after_consonant b'y' r
    then b's' ∷ b'e' ∷ b'i' ∷ drop_last r
    else if is_sibilant r
    then b's' ∷ b'e' ∷ r
    else if ends_in b'f' r
    then b's' ∷ b'e' ∷ b'v' ∷ drop_last r
    else if ends_in_two b'e' b'f' r
    then b's' ∷ b'e' ∷ b'v' ∷ drop_last (drop_last r)
    else if after_consonant b'o' r && not (any (λ w. w === to_lower (reverse r)) o_exceptions)
    then b's' ∷ b'e' ∷ r
    else b's' ∷ r

-- The names that every object has. An object of the tables gives them a value that is not a text, on
-- which `preserveCase` throws.
unfoldable pub is_inherited : Text → Bool
is_inherited lower = lower === lit "constructor" || lower === lit "__proto__"

-- `pluralize`, with `none` for a TypeError.
unfoldable pub pluralize : Text → Option Text
pluralize [] = some []
pluralize (c ∷ w) =
    if is_inherited (to_lower (c ∷ w)) then none else elim (irregular_plural (to_lower (c ∷ w))) [
      | some plural ↦ some (preserve_case (c ∷ w) plural)
      | none ↦ some (reverse (regular_plural (reverse (c ∷ w))))
    ]

-- The singular of a word in es, from what stands before the es.
unfoldable pub singular_of_es : Text → Text
singular_of_es base = if is_sibilant base || after_consonant b'o' base then base else b'e' ∷ base

-- The singular of a word that the tables do not have.
unfoldable pub regular_singular : Text → Text
regular_singular r =
    if ends_in_two b's' b'u' r
    then r
    else if ends_in_two b's' b'e' r
    then if ends_in b'i' (drop_last (drop_last r))
      then b'y' ∷ drop_last (drop_last (drop_last r))
      else if ends_in b'v' (drop_last (drop_last r))
      then b'f' ∷ drop_last (drop_last (drop_last r))
      else singular_of_es (drop_last (drop_last r))
    else if ends_in b's' r && not (ends_in_two b's' b's' r)
    then drop_last r
    else r

-- `singularize`, with `none` for a TypeError.
unfoldable pub singularize : Text → Option Text
singularize [] = some []
singularize (c ∷ w) =
    if is_inherited (to_lower (c ∷ w)) then none else elim (irregular_singular (to_lower (c ∷ w))) [
      | some singular ↦ some (preserve_case (c ∷ w) singular)
      | none ↦
          if is_singular_value (to_lower (c ∷ w))
          then some (c ∷ w)
          else some (reverse (regular_singular (reverse (c ∷ w))))
    ]

-- The tables and the inherited names say nothing of a word in lower case.
abbrev is_some : Option Text → Bool
is_some none = false
is_some (some _) = true

unfoldable pub is_unlisted : Text → Bool
is_unlisted lower = not (
    is_inherited lower
    || is_some (irregular_plural lower)
    || is_some (irregular_singular lower)
    || is_singular_value lower)

-- What stands before a last e is such that another rule than that of the e takes the es of the plural.
unfoldable pub misleads : Text → Bool
misleads r =
    ends_in b'f' r || ends_in b'i' r || ends_in b'v' r || is_sibilant r || after_consonant b'o' r

-- The word ends in u, or in an e that misleads.
unfoldable pub is_lossy : Text → Bool
is_lossy r = ends_in b'u' r || ends_in b'e' r && misleads (drop_last r)
