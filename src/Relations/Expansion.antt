-- ===== src/Relations/Expansion.antt =====
-- Which pairs of types `expandBidirectionalPairs` gives.
use openfaith.Common.{
  Bool, ◌&&◌, ◌||◌, ◌≡◌, refl, sym, ap, ◌∙◌, inl, inr, List, [], ◌∷◌, ◌++◌, map, arith, any,
  Bool-cases, All, All-append, Text, ◌===◌, ===_iff, ===-refl,
}
use openfaith.Relations.{
  RelationshipTypes, contains, dedupe, pair_key, first_part, after_bar, pair_of_key, pairs_of,
  raw_pairs, expand_bidirectional_pairs, flat_map,
}
use openfaith.Relations.Keys.{
  contains-dedupe, All-dedupe, NoBar, first_part-pair_key, after_bar-pair_key, first_part_whole,
}

-- Whether a pair is in a list of pairs.
abbrev pub has_pair : Text → Text → List (Text × Text) → Bool
has_pair s t pairs = any (λ p. p.0 === s && p.1 === t) pairs

-- Whether the inputs link the source type to the target type.
abbrev pub declares : Text → Text → List RelationshipTypes → Bool
declares s t rels =
    any (λ r. r.source_entity_type_tag === s && contains t r.target_entity_type_tags) rels

-- A key of two names without the separator.
abbrev IsKey : Text → Type 0
IsKey k = (a : Text) × (b : Text) × NoBar a × NoBar b × (k ≡ pair_key a b)

same_keys :
    (a b s t : Text) → NoBar a → NoBar s → (a === s && b === t) ≡ (pair_key a b === pair_key s t)
same_keys a b s t ha hs = elim (Bool-cases (pair_key a b === pair_key s t)) [
  | inl e ↦
      let same = (===_iff _ _).0 e in
      let heads : a ≡ s =
        sym (first_part-pair_key a b ha) ∙ ap first_part same ∙ first_part-pair_key s t hs in
      let tails : b ≡ t =
        sym (after_bar-pair_key a b ha) ∙ ap after_bar same ∙ after_bar-pair_key s t hs in
      rw (e, heads, tails) (ground (arith, ===-refl s, ===-refl t))
  | inr d ↦ ground (arith, ===_iff a s, ===_iff b t, ===-refl (pair_key s t))
]

same_pair :
    (s t k : Text)
    → NoBar s
    → NoBar t
    → IsKey k
    → ((pair_of_key k).0 === s && (pair_of_key k).1 === t) ≡ (k === pair_key s t)
same_pair s t k hs ht (a, b, ha, hb, e) =
    rw (e, first_part-pair_key a b ha, after_bar-pair_key a b ha, first_part_whole b hb)
      (same_keys a b s t ha hs)

has_pair-keys :
    (s t : Text) (ks : List Text)
    → NoBar s
    → NoBar t
    → All IsKey ks
    → has_pair s t (map pair_of_key ks) ≡ contains (pair_key s t) ks
has_pair-keys s t [] hs ht h = refl
has_pair-keys s t (k ∷ ks) hs ht (p, h) = rw (same_pair s t k hs ht p, has_pair-keys s t ks hs ht h)

has_pair-append :
    (s t : Text) (xs ys : List (Text × Text))
    → has_pair s t (xs ++ ys) ≡ (has_pair s t xs || has_pair s t ys)
has_pair-append s t [] ys = refl
has_pair-append s t (x ∷ xs) ys = ground (arith, has_pair-append s t xs ys)

has_pair-pairs_of :
    (s t a b : Text) → has_pair s t (pairs_of a b) ≡ ((a === s && b === t) || (a === t && b === s))
has_pair-pairs_of s t a b =
    ground (arith, ===_iff a b, ===_iff a s, ===_iff b t, ===_iff a t, ===_iff b s)

has_pair-targets :
    (s t a : Text) (bs : List Text)
    → has_pair s t (flat_map (pairs_of a) bs)
      ≡ ((a === s && contains t bs) || (a === t && contains s bs))
has_pair-targets s t a [] = ground arith
has_pair-targets s t a (b ∷ bs) = ground (
  arith,
  has_pair-append s t (pairs_of a b) (flat_map (pairs_of a) bs),
  has_pair-pairs_of s t a b,
  has_pair-targets s t a bs,
)

has_pair-raw :
    (s t : Text) (rels : List RelationshipTypes)
    → has_pair s t (raw_pairs rels) ≡ (declares s t rels || declares t s rels)
has_pair-raw s t [] = refl
has_pair-raw s t (r ∷ rels) = ground (
  arith,
  has_pair-append s t (flat_map (pairs_of r.source_entity_type_tag) r.target_entity_type_tags)
      (raw_pairs rels),
  has_pair-targets s t r.source_entity_type_tag r.target_entity_type_tags,
  has_pair-raw s t rels,
)

abbrev keys_of : List (Text × Text) → List Text
keys_of pairs = map (λ p. pair_key p.0 p.1) pairs

abbrev NoBarPair : Text × Text → Type 0
NoBarPair p = NoBar p.0 × NoBar p.1

keys_of-IsKey : (pairs : List (Text × Text)) → All NoBarPair pairs → All IsKey (keys_of pairs)
keys_of-IsKey [] h = tt
keys_of-IsKey ((a, b) ∷ pairs) ((ha, hb), h) = ((a, b, ha, hb, refl), keys_of-IsKey pairs h)

contains-keys_of :
    (s t : Text) (pairs : List (Text × Text))
    → NoBar s
    → All NoBarPair pairs
    → contains (pair_key s t) (keys_of pairs) ≡ has_pair s t pairs
contains-keys_of s t [] hs h = refl
contains-keys_of s t ((a, b) ∷ pairs) hs ((ha, hb), h) =
    rw (← same_keys a b s t ha hs, contains-keys_of s t pairs hs h)

pairs_of-NoBar : (a b : Text) → NoBar a → NoBar b → All NoBarPair (pairs_of a b)
pairs_of-NoBar a b ha hb = elim (Bool-cases (a === b)) [
  | inl e ↦ rw e ((ha, hb), tt)
  | inr e ↦ rw e ((ha, hb), ((hb, ha), tt))
]

targets-NoBar :
    (a : Text) (bs : List Text) → NoBar a → All NoBar bs → All NoBarPair (flat_map (pairs_of a) bs)
targets-NoBar a [] ha h = tt
targets-NoBar a (b ∷ bs) ha (hb, h) =
    All-append NoBarPair (pairs_of a b) _ (pairs_of-NoBar a b ha hb) (targets-NoBar a bs ha h)

-- The names of an input have no separator.
abbrev pub HasNoBars : RelationshipTypes → Type 0
HasNoBars r = NoBar r.source_entity_type_tag × All NoBar r.target_entity_type_tags

raw-NoBar : (rels : List RelationshipTypes) → All HasNoBars rels → All NoBarPair (raw_pairs rels)
raw-NoBar [] h = tt
raw-NoBar (r ∷ rels) ((hs, ht), h) =
    All-append NoBarPair (flat_map (pairs_of r.source_entity_type_tag) r.target_entity_type_tags) _
      (targets-NoBar r.source_entity_type_tag r.target_entity_type_tags hs ht) (raw-NoBar rels h)

-- If no type name has a "|", the expanded pairs are the symmetric closure of what the inputs
-- declare: a pair is there exactly when an input links the two types in one direction or the other.
pub has_pair-expand :
    (rels : List RelationshipTypes) (s t : Text)
    → All HasNoBars rels
    → NoBar s
    → NoBar t
    → has_pair s t (expand_bidirectional_pairs rels) ≡ (declares s t rels || declares t s rels)
unfolding expand_bidirectional_pairs
has_pair-expand rels s t h hs ht =
    let pairs = raw_pairs rels in
    let plain = raw-NoBar rels h in
    has_pair-keys s t (dedupe (keys_of pairs)) hs ht
      (All-dedupe IsKey (keys_of pairs) (keys_of-IsKey pairs plain))
    ∙ contains-dedupe (pair_key s t) (keys_of pairs)
    ∙ contains-keys_of s t pairs hs plain
    ∙ has_pair-raw s t rels
