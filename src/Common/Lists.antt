-- ===== src/Common/Lists.antt =====
-- Lists measured by native numbers, Boolean filters and searches, and predicates on all entries.
use Prim.Native.Nat.{ℕ, suc, ◌+◌, ◌≤◌}
use mathlib.Core.Path.{◌≡◌, refl}
use mathlib.Core.Bool.{Bool, true, false, ◌&&◌, ◌||◌}
use mathlib.Core.Option.{Option, none, some}
use mathlib.Core.List.{List, [], ◌∷◌, ◌++◌, Memᴰ}
use native.Mathlib.Omega.{arith}
use openfaith.Common.Tests.{if◌then◌else◌, Bool-cases}
use mathlib.Core.Logic.{◌⊎◌, inl, inr}

module _ {ℓ} {A : Type ℓ} where
  abbrev pub length : List A → ℕ
  length [] = 0
  length (x ∷ xs) = suc (length xs)

  pub length-append : (xs ys : List A) → length (xs ++ ys) ≡ length xs + length ys
  length-append [] ys = omega arith
  length-append (x ∷ xs) ys = omega (arith, length-append xs ys)

  abbrev pub filter : (A → Bool) → List A → List A
  filter p [] = []
  filter p (x ∷ xs) = if p x then x ∷ filter p xs else filter p xs

  pub length-filter : (p : A → Bool) (xs : List A) → length (filter p xs) ≤ length xs
  length-filter p [] = omega arith
  length-filter p (x ∷ xs) = ground (arith, length-filter p xs)

  abbrev pub any : (A → Bool) → List A → Bool
  any p [] = false
  any p (x ∷ xs) = p x || any p xs

  abbrev pub all : (A → Bool) → List A → Bool
  all p [] = true
  all p (x ∷ xs) = p x && all p xs

  abbrev pub find : (A → Bool) → List A → Option A
  find p [] = none
  find p (x ∷ xs) = if p x then some x else find p xs

  abbrev pub cons_some : Option A → List A → List A
  cons_some none xs = xs
  cons_some (some x) xs = x ∷ xs

  abbrev pub head? : List A → Option A
  head? [] = none
  head? (x ∷ xs) = some x

abbrev pub filter_map {ℓ κ} : {A : Type ℓ} {B : Type κ} → (A → Option B) → List A → List B
filter_map f [] = []
filter_map f (x ∷ xs) = cons_some (f x) (filter_map f xs)

module _ {ℓ κ} {A : Type ℓ} (P : A → Type κ) where
  abbrev pub All : List A → Type κ
  All [] = Unit
  All (x ∷ xs) = P x × All xs

  pub All-append : (xs ys : List A) → All xs → All ys → All (xs ++ ys)
  All-append [] ys h k = k
  All-append (x ∷ xs) ys (p, h) k = (p, All-append xs ys h k)

  pub All-filter : (p : A → Bool) (xs : List A) → All xs → All (filter p xs)
  All-filter p [] h = tt
  All-filter p (x ∷ xs) (h, hs) = elim (Bool-cases (p x)) [
    | inl e ↦ rw e (h, All-filter p xs hs)
    | inr e ↦ rw e (All-filter p xs hs)
  ]

-- A search gives an entry that passes, or no entry passes.
pub find-cases {ℓ} :
    {A : Type ℓ} (p : A → Bool) (xs : List A)
    → ((x : A) × Memᴰ x xs × (p x ≡ true) × (find p xs ≡ some x))
      ⊎ (All (λ x. p x ≡ false) xs × (find p xs ≡ none))
find-cases p [] = inr (tt, refl)
find-cases p (x ∷ xs) = elim (Bool-cases (p x)) [
  | inl e ↦ inl (x, Memᴰ.head refl, e, rw e refl)
  | inr e ↦ elim (find-cases p xs) [
    | inl (y, m, q, f) ↦ inl (y, Memᴰ.tail m, q, rw e f)
    | inr (none_pass, f) ↦ inr ((e, none_pass), rw e f)
  ]
]

-- Where `f` gives an entry that is not one of `P`, `g` gives it too.
module _ {B : Type 0} (P : B → Type 0) where
  mem_later : (b : B) (o : Option B) (xs : List B) → Memᴰ b xs → Memᴰ b (cons_some o xs)
  mem_later b none xs m = m
  mem_later b (some c) xs m = Memᴰ.tail m

  mem_first :
      (b c : B) (o : Option B) (xs : List B)
      → b ≡ c
      → P c ⊎ (o ≡ some c)
      → P b ⊎ Memᴰ b (cons_some o xs)
  mem_first b c o xs e (inl q) = inl (rw e q)
  mem_first b c o xs e (inr q) = inr (rw q (Memᴰ.head e))

  cons_some-mono :
      (b : B) (o o' : Option B) (xs xs' : List B)
      → ((c : B) → o ≡ some c → P c ⊎ (o' ≡ some c))
      → (Memᴰ b xs → P b ⊎ Memᴰ b xs')
      → Memᴰ b (cons_some o xs)
      → P b ⊎ Memᴰ b (cons_some o' xs')
  cons_some-mono b none o' xs xs' h rest m = elim (rest m) [
    | inl q ↦ inl q
    | inr m' ↦ inr (mem_later b o' xs' m')
  ]
  cons_some-mono b (some c) o' xs xs' h rest (Memᴰ.head e) = mem_first b c o' xs' e (h c refl)
  cons_some-mono b (some c) o' xs xs' h rest (Memᴰ.tail m) = elim (rest m) [
    | inl q ↦ inl q
    | inr m' ↦ inr (mem_later b o' xs' m')
  ]

  pub filter_map-mono :
      {A : Type 0} (f g : A → Option B)
      → ((a : A) (b : B) → f a ≡ some b → P b ⊎ (g a ≡ some b))
      → (xs : List A) (b : B) → Memᴰ b (filter_map f xs)
      → P b ⊎ Memᴰ b (filter_map g xs)
  filter_map-mono f g h [] b m = inr m
  filter_map-mono f g h (x ∷ xs) b m =
      cons_some-mono b (f x) (g x) (filter_map f xs) (filter_map g xs) (h x)
        (filter_map-mono f g h xs b) m

-- A test on the elements of a filtered list
pub any-filter {ℓ} :
    {A : Type ℓ} (p q : A → Bool) (xs : List A) → any q (filter p xs) ≡ any (λ x. p x && q x) xs
any-filter p q [] = refl
any-filter p q (x ∷ xs) = ground (arith, any-filter p q xs)
