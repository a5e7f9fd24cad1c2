-- ===== src/Mutations/Laws.antt =====
-- Which custom mutations are converted, and to what.
use openfaith.Common.{
  ℕ, Bool, true, false, ◌||◌, ◌≡◌, refl, ap, ◌∙◌, List, [], ◌∷◌, ◌++◌, map, Option, none, some,
  Text, ◌===◌, All, append_assoc, sym, Bool-cases, inl, inr,
}
use openfaith.SyncEngine.{OpKind}
use openfaith.Relations.{flat_map}
use openfaith.Relations.Keys.{NoBar}
use openfaith.Mutations.{
  Argument, Fields, Item, object, no_object, items, CustomMutation, EntityWorkflowItem, Outcome,
  done, failed, ◌>>=◌, split_bar, kind_of, value_for, operation_of, create_crud_operation, id_of,
  primary_key_of, workflow_item, convert_fields, convert_item, convert_items, convert_args,
  convert_parts, convert_custom_mutation_to_crud_mutation, or_nothing, convert_custom_mutations,
}
use openfaith.Mutations.Names.{split_bar-join}

-- What an object with an id becomes.
abbrev pub converted : CustomMutation → Text → OpKind → Text × Fields → EntityWorkflowItem
converted m entity_name k (id, fields) = workflow_item m entity_name (record {
  op = k;
  table_name = entity_name;
  primary_key = primary_key_of id;
  value = value_for k (primary_key_of id) fields;
})

abbrev pub HasId : Text × Fields → Type 0
HasId (id, fields) = id_of fields ≡ some id

convert_items_lem :
    (m : CustomMutation) (entity_name operation : Text) (k : OpKind) (rows : List (Text × Fields))
    → kind_of operation ≡ some k
    → All HasId rows
    → convert_items m entity_name operation (map (λ r. object r.1) rows)
      ≡ done (map (converted m entity_name k) rows)
unfolding convert_items convert_item convert_fields create_crud_operation operation_of
convert_items_lem m entity_name operation k [] known h = refl
convert_items_lem m entity_name operation k ((id, fields) ∷ rows) known (e, h) =
    rw (e, known, convert_items_lem m entity_name operation k rows known h) refl

-- A custom mutation "entity|operation", with a known operation and an array of objects that all have
-- a string id, is converted as a whole: to one item for each object, in their order, with its id as
-- the primary key.
pub convert_custom_mutation_lem :
    (m : CustomMutation) (e : ℕ) (entity : Text) (o : ℕ) (operation : Text) (k : OpKind)
    (rows : List (Text × Fields)) (rest : List Argument)
    → m.name ≡ (e ∷ entity) ++ b'|' ∷ o ∷ operation
    → NoBar (e ∷ entity)
    → NoBar (o ∷ operation)
    → kind_of (o ∷ operation) ≡ some k
    → m.args ≡ items (map (λ r. object r.1) rows) ∷ rest
    → All HasId rows
    → convert_custom_mutation_to_crud_mutation m ≡ done (map (converted m (e ∷ entity) k) rows)
unfolding convert_custom_mutation_to_crud_mutation convert_parts convert_args ◌===◌
convert_custom_mutation_lem m e entity o operation k rows rest name he ho known args ids =
    ap (λ n. convert_parts m (split_bar n)) name
    ∙ ap (convert_parts m) (split_bar-join (e ∷ entity) (o ∷ operation) he ho)
    ∙ ap (convert_args m (e ∷ entity) (o ∷ operation)) args
    ∙ convert_items_lem m (e ∷ entity) (o ∷ operation) k rows known ids

-- An item that no conversion accepts.
abbrev pub is_bad : Item → Bool
is_bad no_object = true
is_bad (object fields) = elim (id_of fields) [ none ↦ true | some id ↦ false ]

abbrev pub is_failed {ℓ} : {A : Type ℓ} → Outcome A → Bool
is_failed (done a) = false
is_failed (failed e) = true

bind-failed_first {ℓ κ} :
    {A : Type ℓ} {B : Type κ} (o : Outcome A) (k : A → Outcome B)
    → is_failed o ≡ true
    → is_failed (o >>= k) ≡ true
bind-failed_first (done a) k h = cc
bind-failed_first (failed e) k h = refl

bind-failed_rest {ℓ κ} :
    {A : Type ℓ} {B : Type κ} (o : Outcome A) (k : A → Outcome B)
    → ((a : A) → is_failed (k a) ≡ true)
    → is_failed (o >>= k) ≡ true
bind-failed_rest (done a) k h = h a
bind-failed_rest (failed e) k h = refl

convert_fields-none :
    (m : CustomMutation) (entity_name operation : Text) (fields : Fields) (id : Option Text)
    → elim id [ none ↦ true | some s ↦ false ] ≡ true
    → is_failed (convert_fields m entity_name operation fields id) ≡ true
unfolding convert_fields
convert_fields-none m entity_name operation fields none h = refl
convert_fields-none m entity_name operation fields (some id) h = cc

convert_item-bad :
    (m : CustomMutation) (entity_name operation : Text) (i : Item)
    → is_bad i ≡ true
    → is_failed (convert_item m entity_name operation i) ≡ true
unfolding convert_item
convert_item-bad m entity_name operation no_object h = refl
convert_item-bad m entity_name operation (object fields) h =
    convert_fields-none m entity_name operation fields (id_of fields) h

convert_items-bad :
    (m : CustomMutation) (entity_name operation : Text) (before : List Item) (bad : Item)
    (after : List Item)
    → is_bad bad ≡ true
    → is_failed (convert_items m entity_name operation (before ++ bad ∷ after)) ≡ true
unfolding convert_items
convert_items-bad m entity_name operation [] bad after h =
    bind-failed_first (convert_item m entity_name operation bad) _
      (convert_item-bad m entity_name operation bad h)
convert_items-bad m entity_name operation (i ∷ before) bad after h =
    bind-failed_rest (convert_item m entity_name operation i) _ (λ first.
      bind-failed_first (convert_items m entity_name operation (before ++ bad ∷ after)) _
        (convert_items-bad m entity_name operation before bad after h))

convert_parts-bad :
    (m : CustomMutation) (parts : List Text) (before : List Item) (bad : Item) (after : List Item)
    (rest : List Argument)
    → m.args ≡ items (before ++ bad ∷ after) ∷ rest
    → is_bad bad ≡ true
    → is_failed (convert_parts m parts) ≡ true
unfolding convert_parts convert_args
convert_parts-bad m [] before bad after rest a h = refl
convert_parts-bad m (x ∷ []) before bad after rest a h = refl
convert_parts-bad m (x ∷ y ∷ []) before bad after rest a h =
    elim (Bool-cases (x === [] || y === [])) [
      | inl e ↦ rw e refl
      | inr e ↦ rw e (
          ap (λ args. is_failed (convert_args m x y args)) a
          ∙ convert_items-bad m x y before bad after h)
    ]
convert_parts-bad m (x ∷ y ∷ z ∷ parts) before bad after rest a h = refl

failed-nothing : (o : Outcome (List EntityWorkflowItem)) → is_failed o ≡ true → or_nothing o ≡ []
failed-nothing (done is) h = cc
failed-nothing (failed e) h = refl

flat_map-append {ℓ κ} :
    {A : Type ℓ} {B : Type κ} (f : A → List B) (xs ys : List A)
    → flat_map f (xs ++ ys) ≡ flat_map f xs ++ flat_map f ys
flat_map-append f [] ys = refl
flat_map-append f (x ∷ xs) ys =
    rw (flat_map-append f xs ys) (sym (append_assoc (f x) (flat_map f xs) (flat_map f ys)))

-- A custom mutation with an item that is no object, or that has no string id, is dropped as a whole,
-- and the mutations before and after it are converted as they are without it.
pub convert_custom_mutations-bad :
    (ms : List CustomMutation) (m : CustomMutation) (ms' : List CustomMutation) (before : List Item)
    (bad : Item) (after : List Item) (rest : List Argument)
    → m.args ≡ items (before ++ bad ∷ after) ∷ rest
    → is_bad bad ≡ true
    → convert_custom_mutations (ms ++ m ∷ ms')
      ≡ convert_custom_mutations ms ++ convert_custom_mutations ms'
unfolding convert_custom_mutations convert_custom_mutation_to_crud_mutation
convert_custom_mutations-bad ms m ms' before bad after rest a h =
    flat_map-append (λ x. or_nothing (convert_custom_mutation_to_crud_mutation x)) ms (m ∷ ms')
    ∙ rw
        (failed-nothing (convert_parts m (split_bar m.name))
          (convert_parts-bad m (split_bar m.name) before bad after rest a h))
        refl
