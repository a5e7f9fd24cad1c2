-- ===== src/Schema/Transformer/Items/Objects.antt =====
-- Objects as lists of entries: what is found in them after entries are set.
use openfaith.Common.{
  Bool, true, false, ◌≡◌, refl, sym, ap, ◌∙◌, inl, inr, List, [], ◌∷◌, ◌++◌, Option, none, some,
  if◌then◌else◌, Bool-cases, filter_map, cons_some, All, arith, Text, ◌===◌, ===_iff,
}
use openfaith.Schema.{Value, Item, or_else}
use openfaith.Schema.Transformer.Items.{get, set, collect}

pub get-set :
    (k key : Text) (v : Value) (item : Item)
    → get k (set key v item) ≡ (if key === k then some v else get k item)
unfolding get set
get-set k key v [] = refl
get-set k key v ((h, w) ∷ item) =
    ground (arith, get-set k key v item, ===_iff h key, ===_iff h k, ===_iff key k)

-- The value of the last entry of a key.
abbrev pub last_of : Text → List (Text × Value) → Option Value
last_of k [] = none
last_of k ((h, v) ∷ es) = or_else (last_of k es) (if h === k then some v else none)

or_else_assoc {ℓ} :
    {A : Type ℓ} (a b c : Option A) → or_else (or_else a b) c ≡ or_else a (or_else b c)
or_else_assoc (some a) b c = refl
or_else_assoc none b c = refl

pub or_else-none {ℓ} : {A : Type ℓ} (a : Option A) → or_else a none ≡ a
or_else-none (some a) = refl
or_else-none none = refl

if-or_else :
    (b : Bool) (v : Value) (o : Option Value)
    → (if b then some v else o) ≡ or_else (if b then some v else none) o
if-or_else true v o = refl
if-or_else false v o = refl

pub get-collect :
    (k : Text) (item : Item) (es : List (Text × Value))
    → get k (collect item es) ≡ or_else (last_of k es) (get k item)
unfolding collect
get-collect k item [] = refl
get-collect k item ((h, v) ∷ es) =
    rw
      (
        get-collect k (set h v item) es,
        get-set k h v item,
        or_else_assoc (last_of k es) (if h === k then some v else none) (get k item),
      )
      (ap (or_else (last_of k es)) (if-or_else (h === k) v (get k item)))

-- No key comes twice.
abbrev Distinct : Item → Type 0
Distinct [] = Unit
Distinct ((k, v) ∷ item) = (get k item ≡ none) × Distinct item

Distinct-set : (k : Text) (v : Value) (item : Item) → Distinct item → Distinct (set k v item)
unfolding set get
Distinct-set k v [] d = (refl, tt)
Distinct-set k v ((h, w) ∷ item) (n, d) = elim (Bool-cases (h === k)) [
  | inl e ↦ rw e (n, d)
  | inr e ↦ rw e (rw (get-set h k v item, other e) n, Distinct-set k v item d)
]
  where
    other : (h === k) ≡ false → (k === h) ≡ false
    other e = ground (arith, ===_iff h k, ===_iff k h)

Distinct-collect :
    (item : Item) (es : List (Text × Value)) → Distinct item → Distinct (collect item es)
unfolding collect
Distinct-collect item [] d = d
Distinct-collect item ((h, v) ∷ es) d = Distinct-collect (set h v item) es (Distinct-set h v item d)

last_of-Distinct : (k : Text) (item : Item) → Distinct item → last_of k item ≡ get k item
unfolding get
last_of-Distinct k [] d = refl
last_of-Distinct k ((h, v) ∷ item) (n, d) = elim (Bool-cases (h === k)) [
  | inl e ↦ rw (e, last_of-Distinct k item d) (at-key ((===_iff h k).0 e))
  | inr e ↦ rw (e, last_of-Distinct k item d) (or_else-none (get k item))
]
  where
    at-key : h ≡ k → or_else (get k item) (some v) ≡ some v
    at-key q = rw (← q, n) refl

-- An object that is made of entries, and then spread, has what the entries have.
pub last_of-collect :
    (k : Text) (es : List (Text × Value)) → last_of k (collect [] es) ≡ last_of k es
unfolding get
last_of-collect k es =
    last_of-Distinct k (collect [] es) (Distinct-collect [] es tt)
    ∙ get-collect k [] es
    ∙ or_else-none (last_of k es)

-- The value that an entry gives a key.
abbrev pub entry_at : Text → Option (Text × Value) → Option Value
entry_at k none = none
entry_at k (some (h, v)) = if h === k then some v else none

last_of-cons :
    (k : Text) (o : Option (Text × Value)) (es : List (Text × Value))
    → last_of k (cons_some o es) ≡ or_else (last_of k es) (entry_at k o)
last_of-cons k none es = sym (or_else-none (last_of k es))
last_of-cons k (some (h, v)) es = refl

module _ {A : Type 0} (f : A → Option (Text × Value)) (k : Text) where
  -- Other members give the key no value.
  abbrev pub Silent : List A → Type 0
  Silent xs = All (λ x. entry_at k (f x) ≡ none) xs

  pub All-Silent :
      (P : A → Type 0)
      → ((x : A) → P x → entry_at k (f x) ≡ none)
      → (xs : List A) → All P xs
      → Silent xs
  All-Silent P h [] a = tt
  All-Silent P h (x ∷ xs) (p, a) = (h x p, All-Silent P h xs a)

  last_of-Silent : (xs : List A) → Silent xs → last_of k (filter_map f xs) ≡ none
  last_of-Silent [] h = refl
  last_of-Silent (x ∷ xs) (n, h) =
      last_of-cons k (f x) (filter_map f xs) ∙ rw (last_of-Silent xs h, n) refl

  -- The only member that may give a key a value gives it.
  pub last_of-filter_map :
      (xs : List A) (x : A) (ys : List A)
      → Silent xs
      → Silent ys
      → last_of k (filter_map f (xs ++ x ∷ ys)) ≡ entry_at k (f x)
  last_of-filter_map [] x ys h h' =
      last_of-cons k (f x) (filter_map f ys) ∙ rw (last_of-Silent ys h') refl
  last_of-filter_map (w ∷ xs) x ys (n, h) h' =
      last_of-cons k (f w) (filter_map f (xs ++ x ∷ ys))
      ∙ rw (last_of-filter_map xs x ys h h', n) (or_else-none (entry_at k (f x)))

-- Two passes as one.
abbrev pub then_map : {B C : Type 0} → (B → Option C) → Option B → Option C
then_map g none = none
then_map g (some b) = g b

filter_map-cons :
    {B C : Type 0} (g : B → Option C) (o : Option B) (bs : List B)
    → filter_map g (cons_some o bs) ≡ cons_some (then_map g o) (filter_map g bs)
filter_map-cons g none bs = refl
filter_map-cons g (some b) bs = refl

pub filter_map-filter_map :
    {A B C : Type 0} (f : A → Option B) (g : B → Option C) (xs : List A)
    → filter_map g (filter_map f xs) ≡ filter_map (λ x. then_map g (f x)) xs
filter_map-filter_map f g [] = refl
filter_map-filter_map f g (x ∷ xs) =
    filter_map-cons g (f x) (filter_map f xs)
    ∙ ap (cons_some (then_map g (f x))) (filter_map-filter_map f g xs)
