-- ===== src/EdgeDirection.antt =====
-- packages/shared/schema.ts: `EdgeDirectionSchema`, which of two linked ids is the source.
pub mod Laws
use openfaith.Common.{
  ℕ, ◌+◌, Bool, true, false, not, ◌&&◌, ◌||◌, [], ◌∷◌, Option, none, some, if◌then◌else◌, leb, ◌==◌,
  Text, ◌===◌, text_lt,
}

pub record EdgeDirection : Type 0 where
  pub source : Text
  pub target : Text

-- The first code unit of `c.toLowerCase()` for a text of one code unit, as far as the range test
-- can tell: beside the ASCII letters only U+0130 (to i and a dot above) and U+212A (to k) have a
-- lower case that starts with an ASCII letter.
abbrev lower_case : ℕ → ℕ
lower_case c =
    if leb b'A' c && leb c b'Z'
    then c + 32
    else if c == 0x130
    then b'i'
    else if c == 0x212a
    then b'k'
    else c

-- The first half of the alphabet, 'A-M'.
unfoldable pub is_a_to_m : ℕ → Bool
is_a_to_m c = leb b'a' (lower_case c) && leb (lower_case c) b'm'

-- `alphaRange(id) === 'A-M'`; the id is not empty.
abbrev pub in_first_range : Text → Bool
in_first_range [] = false
in_first_range (c ∷ _) = is_a_to_m c

abbrev pub is_empty : Text → Bool
is_empty [] = true
is_empty (_ ∷ _) = false

abbrev same_range : Bool → Bool → Bool
same_range true b = b
same_range false b = not b

-- The order of the rest of `decode`: by the range, then by the ids.
unfoldable pub goes_first : Text → Text → Bool
goes_first a b =
    if same_range (in_first_range a) (in_first_range b) then text_lt a b else in_first_range a

-- `decode`: none is the parse failure "Cannot determine edge direction: empty ID".
unfoldable pub decode : Text → Text → Option EdgeDirection
decode a b =
    if is_empty a || is_empty b
    then none
    else if a === b
    then some (record { source = a; target = b })
    else if goes_first a b
    then some (record { source = a; target = b })
    else some (record { source = b; target = a })

-- `encode`
unfoldable pub encode : EdgeDirection → Text × Text
encode d = (d.source, d.target)
