-- ===== src/Workflows/Push/Replaced.antt =====
-- Lists in which one entry is replaced by another, or removed.
use openfaith.Common.{◌≡◌, ap, sym, List, [], ◌∷◌, ◌++◌, map, ◌⊎◌, inl, inr, All, Memᴰ}

module _ {A : Type 0} where
  -- One entry is replaced by another.
  pub All-replace :
      (P Q : A → Type 0) (before after : List A) (a b : A)
      → ((x : A) → P x → Q x)
      → (P a → Q b)
      → All P (before ++ a ∷ after)
      → All Q (before ++ b ∷ after)
  All-replace P Q [] after a b weaken change (p, ps) = (change p, All-map after ps)
    where
      All-map : (xs : List A) → All P xs → All Q xs
      All-map [] h = tt
      All-map (x ∷ xs) (h, hs) = (weaken x h, All-map xs hs)
  All-replace P Q (x ∷ before) after a b weaken change (p, ps) =
      (weaken x p, All-replace P Q before after a b weaken change ps)

  pub map-replace {ℓ} :
      {B : Type ℓ} (f : A → B) (before after : List A) (a b : A)
      → f a ≡ f b
      → map f (before ++ a ∷ after) ≡ map f (before ++ b ∷ after)
  map-replace f [] after a b e = ap (λ x. x ∷ map f after) e
  map-replace f (x ∷ before) after a b e = ap (λ xs. f x ∷ xs) (map-replace f before after a b e)

  pub Mem-removed :
      (i j : A) (left right : List A)
      → Memᴰ j (left ++ i ∷ right)
      → (i ≡ j) ⊎ Memᴰ j (left ++ right)
  Mem-removed i j [] right (Memᴰ.head e) = inl (sym e)
  Mem-removed i j [] right (Memᴰ.tail m) = inr m
  Mem-removed i j (x ∷ left) right (Memᴰ.head e) = inr (Memᴰ.head e)
  Mem-removed i j (x ∷ left) right (Memᴰ.tail m) = elim (Mem-removed i j left right m) [
    | inl e ↦ inl e
    | inr n ↦ inr (Memᴰ.tail n)
  ]
