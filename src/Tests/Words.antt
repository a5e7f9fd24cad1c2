-- ===== src/Tests/Words.antt =====
-- Words and their plurals on concrete data: packages/shared/string.ts.
use openfaith.Common.{◌≡◌, refl, lit, some, ◌↔◌, reverse, false, ◌===◌, lower_code, upper_code}
use mathlib.Core.Option.{bind}
use openfaith.Strings.{
  pluralize, singularize, is_lossy, is_unlisted, is_inherited, irregular_plural, irregular_plurals,
  irregular_singular, is_singular_value, regular_plural, regular_singular, singular_of_es,
  after_consonant, is_vowel, is_sibilant, preserve_case,
}
use openfaith.Strings.Laws.{singularize-pluralize}

person : pluralize (lit "Person") ≡ some (lit "People")
unfolding pluralize lit is_inherited ◌===◌ lower_code irregular_plural irregular_plurals
    preserve_case upper_code
person = refl

house : bind (pluralize (lit "house")) singularize ≡ some (lit "hous")
unfolding pluralize bind lit is_inherited ◌===◌ lower_code irregular_plural irregular_plurals
    singularize regular_plural after_consonant is_sibilant irregular_singular is_singular_value
    regular_singular singular_of_es
house = refl

singularize-pluralize_example :
    (bind (pluralize (lit "city")) singularize ≡ some (lit "city"))
    ↔ (is_lossy (reverse (lit "city")) ≡ false)
unfolding is_unlisted is_inherited ◌===◌ lit lower_code irregular_plural irregular_plurals
    irregular_singular is_singular_value regular_plural after_consonant is_vowel
singularize-pluralize_example = singularize-pluralize b'c' (lit "ity") refl refl
