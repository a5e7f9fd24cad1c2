-- ===== src/Relations/Groups.antt =====
-- What `Array.groupBy` gives: the groups have different names, and each has the items of its name in
-- their order.
use openfaith.Common.{
  Bool, true, false, not, ◌&&◌, ◌||◌, ◌≡◌, refl, sym, ◌∙◌, List, [], ◌∷◌, ◌++◌, map, arith, filter,
  if◌then◌else◌, Text, ◌===◌, ===_iff, ===-refl, append_assoc, append-nil, Bool-cases, inl, inr,
}
use openfaith.Relations.{contains, insert_group, group_from, group_by}

abbrev pub are_distinct : List Text → Bool
are_distinct [] = true
are_distinct (n ∷ ns) = not (contains n ns) && are_distinct ns

module _ {ℓ} {A : Type ℓ} where
  -- The items of the first group with a name.
  abbrev pub items_of : Text → List (Text × List A) → List A
  items_of n [] = []
  items_of n (g ∷ groups) = if g.0 === n then g.1 else items_of n groups

  abbrev pub names_of : List (Text × List A) → List Text
  names_of groups = map (λ g. g.0) groups

  items_of-insert_same :
      (k : Text) (a : A) (groups : List (Text × List A))
      → items_of k (insert_group k a groups) ≡ items_of k groups ++ a ∷ []
  unfolding insert_group
  items_of-insert_same k a [] = rw (===-refl k) refl
  items_of-insert_same k a ((j, xs) ∷ groups) = ground (arith, items_of-insert_same k a groups)

  items_of-insert_other :
      (k n : Text) (a : A) (groups : List (Text × List A))
      → (k === n) ≡ false
      → items_of n (insert_group k a groups) ≡ items_of n groups
  unfolding insert_group
  items_of-insert_other k n a [] h = rw h refl
  items_of-insert_other k n a ((j, xs) ∷ groups) h =
      ground (arith, items_of-insert_other k n a groups h, ===_iff j k)

  contains-insert :
      (k n : Text) (a : A) (groups : List (Text × List A))
      → contains n (names_of (insert_group k a groups)) ≡ (contains n (names_of groups) || k === n)
  unfolding insert_group
  contains-insert k n a [] = ground arith
  contains-insert k n a ((j, xs) ∷ groups) =
      ground (arith, contains-insert k n a groups, ===_iff j k, ===_iff k n, ===_iff j n)

  insert-distinct :
      (k : Text) (a : A) (groups : List (Text × List A))
      → are_distinct (names_of groups) ≡ true
      → are_distinct (names_of (insert_group k a groups)) ≡ true
  unfolding insert_group
  insert-distinct k a [] h = refl
  insert-distinct k a ((j, xs) ∷ groups) h =
      ground
        (arith, insert-distinct k a groups, contains-insert k j a groups, ===_iff j k, ===_iff k j)

  module _ (key : A → Text) where
    items_of-group_from :
        (n : Text) (groups : List (Text × List A)) (xs : List A)
        → items_of n (group_from key groups xs) ≡ items_of n groups ++ filter (λ x. key x === n) xs
    unfolding group_from
    items_of-group_from n groups [] = sym (append-nil _)
    items_of-group_from n groups (x ∷ xs) = elim (Bool-cases (key x === n)) [
      | inl e ↦
          let same : key x ≡ n = (===_iff (key x) n).0 e in
          items_of-group_from n (insert_group (key x) x groups) xs
          ∙ rw (e, same, items_of-insert_same n x groups)
              (append_assoc (items_of n groups) (x ∷ []) (filter (λ y. key y === n) xs))
      | inr e ↦
          items_of-group_from n (insert_group (key x) x groups) xs
          ∙ rw (e, items_of-insert_other (key x) n x groups e) refl
    ]

    group_from-distinct :
        (groups : List (Text × List A)) (xs : List A)
        → are_distinct (names_of groups) ≡ true
        → are_distinct (names_of (group_from key groups xs)) ≡ true
    unfolding group_from
    group_from-distinct groups [] h = h
    group_from-distinct groups (x ∷ xs) h =
        group_from-distinct (insert_group (key x) x groups) xs (insert-distinct (key x) x groups h)

    pub items_of-group_by :
        (n : Text) (xs : List A) → items_of n (group_by key xs) ≡ filter (λ x. key x === n) xs
    unfolding group_by
    items_of-group_by n xs = items_of-group_from n [] xs

    pub group_by_distinct : (xs : List A) → are_distinct (names_of (group_by key xs)) ≡ true
    unfolding group_by
    group_by_distinct xs = group_from-distinct [] xs refl
