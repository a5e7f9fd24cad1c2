-- ===== src/EdgeDirection/Laws.antt =====
-- The direction of an edge does not depend on the order in which its ends are given.
use openfaith.Common.{
  true, false, ◌≡◌, refl, ◌∙◌, ◌↔◌, ◌⊎◌, inl, inr, [], ◌∷◌, none, some, arith, Text, ◌===◌, ===_iff,
  text_lt-asym, text_lt-total,
}
use openfaith.EdgeDirection.{EdgeDirection, goes_first, decode, encode}

goes_first-total : (a b : Text) → (a === b) ≡ false → goes_first a b ≡ false → goes_first b a ≡ true
unfolding goes_first
goes_first-total a b e h = ground (arith, text_lt-total a b)

goes_first-asym : (a b : Text) → goes_first a b ≡ true → goes_first b a ≡ false
unfolding goes_first
goes_first-asym a b h = ground (arith, text_lt-asym a b)

-- Swapping the two ids gives the same result, failures included.
pub decode_comm : (a b : Text) → decode a b ≡ decode b a
unfolding decode
decode_comm a b =
    ground (arith, ===_iff a b, ===_iff b a, goes_first-total a b, goes_first-asym a b)

decode_cases :
    (a b : Text) (d : EdgeDirection)
    → decode a b ≡ some d
    → (d ≡ record { source = a; target = b }) ⊎ (d ≡ record { source = b; target = a })
unfolding decode
decode_cases a b d h = ground arith

-- The ends are swapped only where the ids are different.
pub decode_ends :
    (a b : Text) (d : EdgeDirection)
    → decode a b ≡ some d
    → (d ≡ record { source = a; target = b })
      ⊎ ((d ≡ record { source = b; target = a }) × ((a === b) ≡ false) × ((b === a) ≡ false))
unfolding decode
decode_ends a b d h = ground (arith, ===_iff a b, ===_iff b a)

-- Decoding fails exactly when one of the ids is empty.
pub decode-eq-none_iff : (a b : Text) → (decode a b ≡ none) ↔ ((a ≡ []) ⊎ (b ≡ []))
unfolding decode
decode-eq-none_iff [] b = (λ _. inl refl, λ _. refl)
decode-eq-none_iff (c ∷ a) [] = (λ _. inr refl, λ _. refl)
decode-eq-none_iff (c ∷ a) (d ∷ b) = ground (arith, ===_iff (c ∷ a) (d ∷ b))

-- The ends of a decoded edge are the two ids, and decoding what `encode` makes of it, with the ends
-- in either order, gives it back.
pub decode-encode :
    (a b : Text) (d : EdgeDirection)
    → decode a b ≡ some d
    → ((encode d ≡ (a, b)) ⊎ (encode d ≡ (b, a)))
      × (decode (encode d).0 (encode d).1 ≡ some d)
      × (decode (encode d).1 (encode d).0 ≡ some d)
unfolding encode
decode-encode a b d h = elim (decode_cases a b d h) [
  | inl e ↦ rw e (inl refl, rw (← e) h, decode_comm b a ∙ rw (← e) h)
  | inr e ↦ rw e (inr refl, decode_comm b a ∙ rw (← e) h, rw (← e) h)
]
