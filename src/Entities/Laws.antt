-- ===== src/Entities/Laws.antt =====
-- Custom fields under repeated synchronisation.
use openfaith.Common.{Bool, not, ◌≡◌, refl, ap, ◌∙◌, List, [], ◌∷◌, ◌++◌, arith, filter, append-nil}
use openfaith.Store.{CustomField, Entity}
use openfaith.Entities.{is_from_pco, merge_custom_fields, set_entity}
use openfaith.Store.Keys.{entity_key}
use mathlib.Core.Path.{ap₂}

module _ {A : Type 0} (p : A → Bool) where
  filter_both : (xs : List A) → filter p (filter p xs) ≡ filter p xs
  filter_both [] = refl
  filter_both (x ∷ xs) = ground (arith, filter_both xs)

  filter_none : (xs : List A) → filter p (filter (λ x. not (p x)) xs) ≡ []
  filter_none [] = refl
  filter_none (x ∷ xs) = ground (arith, filter_none xs)

  filter_none_not : (xs : List A) → filter (λ x. not (p x)) (filter p xs) ≡ []
  filter_none_not [] = refl
  filter_none_not (x ∷ xs) = ground (arith, filter_none_not xs)

filter-append :
    {A : Type 0} (p : A → Bool) (xs ys : List A) → filter p (xs ++ ys) ≡ filter p xs ++ filter p ys
filter-append p [] ys = refl
filter-append p (x ∷ xs) ys = ground (arith, filter-append p xs ys)

others-merge :
    (old new : List CustomField)
    → filter (λ f. not (is_from_pco f)) (merge_custom_fields old new)
      ≡ filter (λ f. not (is_from_pco f)) old
unfolding merge_custom_fields
others-merge old new =
    filter-append (λ f. not (is_from_pco f)) _ _
    ∙ ap₂ (λ xs ys. xs ++ ys) (filter_both (λ f. not (is_from_pco f)) old)
        (filter_none_not is_from_pco new)
    ∙ append-nil _

pco-merge :
    (old new : List CustomField)
    → filter is_from_pco (merge_custom_fields old new) ≡ filter is_from_pco new
unfolding merge_custom_fields
pco-merge old new =
    filter-append is_from_pco _ _
    ∙ ap₂ (λ xs ys. xs ++ ys) (filter_none is_from_pco old) (filter_both is_from_pco new)

again-merge :
    (old new : List CustomField)
    → merge_custom_fields (merge_custom_fields old new) new ≡ merge_custom_fields old new
again-merge old new =
    unfold merge_custom_fields in ap (λ xs. xs ++ filter is_from_pco new) (others-merge old new)

-- When a synced entity meets the stored row, the custom fields of other sources survive in their
-- order, those of Planning Center are the new ones, the identity of the row stays, and syncing the
-- same entity again changes nothing.
pub set_entity_lem :
    (old new : Entity)
    → (filter (λ f. not (is_from_pco f)) (set_entity old new).custom_fields
        ≡ filter (λ f. not (is_from_pco f)) old.custom_fields)
      × (filter is_from_pco (set_entity old new).custom_fields
          ≡ filter is_from_pco new.custom_fields)
      × (entity_key (set_entity old new) ≡ entity_key old)
      × (set_entity (set_entity old new) new ≡ set_entity old new)
unfolding set_entity
set_entity_lem old new = (
  others-merge old.custom_fields new.custom_fields,
  pco-merge old.custom_fields new.custom_fields,
  refl,
  rw (again-merge old.custom_fields new.custom_fields),
)
