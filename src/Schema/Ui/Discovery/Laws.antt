-- ===== src/Schema/Ui/Discovery/Laws.antt =====
-- Which entities the user interface shows, and in which order: packages/schema/shared/entityDiscovery.ts.
use openfaith.Common.{
  ℕ, ◌≡◌, refl, ap, sym, ◌∙◌, arith, Bool, true, false, ◌&&◌, ◌||◌, List, [], ◌∷◌, any, cons_some,
  Option, none, some, leb, Text, ◌===◌, All, Bool-cases, inl, inr,
}
use openfaith.Schema.{Navigation, FieldConfig, Ast, get_annotation_from_schema}
use openfaith.Schema.Ui.Discovery.{
  extract_entity_tag, EntitySchema, entity_schema, discover_entity_schemas, UiEntity,
  enabled_navigation, nav_url, with_url, with_navigation, ui_entities, order_of, insert_by_order,
  sort_by_order, sorted_entities, discover_ui_entities,
}

-- Ascending orders
pub IsOrdered : List UiEntity → Type 0
IsOrdered [] = Unit {0}
IsOrdered (e ∷ entities) =
    All (λ f. leb (order_of e) (order_of f) ≡ true) entities × IsOrdered entities

module _ (p : UiEntity → Bool) where
  any-insert :
      (e : UiEntity) (entities : List UiEntity)
      → any p (insert_by_order e entities) ≡ (p e || any p entities)
  unfolding insert_by_order
  any-insert e [] = refl
  any-insert e (f ∷ entities) = ground (arith, any-insert e entities)

  any-sort : (entities : List UiEntity) → any p (sort_by_order entities) ≡ any p entities
  unfolding sort_by_order
  any-sort [] = refl
  any-sort (e ∷ entities) =
      any-insert e (sort_by_order entities) ∙ ap (λ b. p e || b) (any-sort entities)

All-insert :
    (P : UiEntity → Type 0) (e : UiEntity) (entities : List UiEntity)
    → P e
    → All P entities
    → All P (insert_by_order e entities)
unfolding insert_by_order
All-insert P e [] h hs = (h, tt)
All-insert P e (f ∷ entities) h (k, hs) = elim (Bool-cases (leb (order_of e) (order_of f))) [
  | inl q ↦ rw q (h, (k, hs))
  | inr q ↦ rw q (k, All-insert P e entities h hs)
]

leb_trans : (a b c : ℕ) → leb a b ≡ true → leb b c ≡ true → leb a c ≡ true
leb_trans a b c h k = ground arith

leb_total : (a b : ℕ) → leb a b ≡ false → leb b a ≡ true
leb_total a b h = ground arith

All-leb :
    (a b : ℕ) (entities : List UiEntity)
    → leb a b ≡ true
    → All (λ f. leb b (order_of f) ≡ true) entities
    → All (λ f. leb a (order_of f) ≡ true) entities
All-leb a b [] h hs = tt
All-leb a b (f ∷ entities) h (k, hs) = (leb_trans a b (order_of f) h k, All-leb a b entities h hs)

insert-IsOrdered :
    (e : UiEntity) (entities : List UiEntity)
    → IsOrdered entities
    → IsOrdered (insert_by_order e entities)
unfolding insert_by_order IsOrdered
insert-IsOrdered e [] h = (tt, tt)
insert-IsOrdered e (f ∷ entities) (h, hs) = elim (Bool-cases (leb (order_of e) (order_of f))) [
  | inl q ↦ rw q ((q, All-leb (order_of e) (order_of f) entities q h), (h, hs))
  | inr q ↦ rw q (
    All-insert (λ g. leb (order_of f) (order_of g) ≡ true) e entities
        (leb_total (order_of e) (order_of f) q) h,
    insert-IsOrdered e entities hs,
  )
]

sort-IsOrdered : (entities : List UiEntity) → IsOrdered (sort_by_order entities)
unfolding sort_by_order IsOrdered
sort-IsOrdered [] = tt
sort-IsOrdered (e ∷ entities) =
    insert-IsOrdered e (sort_by_order entities) (sort-IsOrdered entities)

abbrev is_some {ℓ} : {A : Type ℓ} → Option A → Bool
is_some none = false
is_some (some a) = true

-- The schema is that of an entity with a table and a navigation that is enabled, and has the tag.
abbrev pub is_shown_as : Text → Ast → Bool
is_shown_as tag schema = elim (extract_entity_tag schema) [
  | none ↦ false
  | some t ↦
      t === tag
      && is_some (get_annotation_from_schema (λ a. a.of_table) schema)
      && is_some (enabled_navigation (get_annotation_from_schema (λ a. a.of_ui_config) schema))
]

abbrev is_navigable : Text → EntitySchema → Bool
is_navigable tag e =
    e.tag === tag
    && is_some (enabled_navigation (get_annotation_from_schema (λ a. a.of_ui_config) e.schema))

abbrev has_tag : Text → UiEntity → Bool
has_tag tag e = e.tag === tag

-- How the entities after one go on, when one comes before them.
any-with_url :
    (tag : Text) (e : EntitySchema) (config : Option FieldConfig) (n : Navigation)
    (url : Option Text) (rest : Option (List UiEntity)) (entities : List UiEntity)
    → with_url e config n url rest ≡ some entities
    → (later : List UiEntity) × (rest ≡ some later)
      × (any (has_tag tag) entities ≡ (e.tag === tag || any (has_tag tag) later))
any-with_url tag e config n none rest entities h = absurd (cc h)
any-with_url tag e config n (some url) none entities h = absurd (cc h)
any-with_url tag e config n (some url) (some later) entities h =
    (later, refl, ap (any_in tag) (sym h))
  where
    any_in : Text → Option (List UiEntity) → Bool
    any_in t none = false
    any_in t (some es) = any (has_tag t) es

any-with_navigation :
    (tag : Text) (e : EntitySchema) (config : Option FieldConfig) (n : Option Navigation)
    (rest : Option (List UiEntity)) (entities : List UiEntity)
    → with_navigation e config n rest ≡ some entities
    → (later : List UiEntity) × (rest ≡ some later)
      × (any (has_tag tag) entities ≡ (e.tag === tag && is_some n || any (has_tag tag) later))
any-with_navigation tag e config none rest entities h = (entities, h, ground arith)
any-with_navigation tag e config (some n) rest entities h =
    let (later, hr, k) = any-with_url tag e config n (nav_url e.tag n n.url) rest entities h in
    (later, hr, k ∙ ground arith)

any-ui_entities :
    (tag : Text) (schemas : List EntitySchema) (entities : List UiEntity)
    → ui_entities schemas ≡ some entities
    → any (has_tag tag) entities ≡ any (is_navigable tag) schemas
unfolding ui_entities
any-ui_entities tag [] [] h = refl
any-ui_entities tag [] (e ∷ entities) h = absurd (cc h)
any-ui_entities tag (e ∷ schemas) entities h =
    let config = get_annotation_from_schema (λ a. a.of_ui_config) e.schema in
    let (later, hr, k) =
      any-with_navigation tag e config (enabled_navigation config) (ui_entities schemas) entities
        h in
    k ∙ ap (λ b. is_navigable tag e || b) (any-ui_entities tag schemas later hr)

any-entity_schema :
    (tag : Text) (name : Text) (schema : Ast) (t table : Option Text) (found : List EntitySchema)
    → any (is_navigable tag) (cons_some (entity_schema name schema t table) found) ≡ (
        elim t [
          | none ↦ false
          | some u ↦
              u === tag
              && is_some table
              && is_some
                  (enabled_navigation (get_annotation_from_schema (λ a. a.of_ui_config) schema))
        ]
        || any (is_navigable tag) found)
any-entity_schema tag name schema none table found = refl
any-entity_schema tag name schema (some u) none found = ground arith
any-entity_schema tag name schema (some u) (some table) found = ground arith

any-discover :
    (tag : Text) (schemas : List (Text × Ast))
    → any (is_navigable tag) (discover_entity_schemas schemas)
      ≡ any (λ (s : Text × Ast). is_shown_as tag s.1) schemas
unfolding discover_entity_schemas
any-discover tag [] = refl
any-discover tag ((name, schema) ∷ schemas) =
    any-entity_schema tag name schema (extract_entity_tag schema)
      (get_annotation_from_schema (λ a. a.of_table) schema) _
    ∙ ap (λ b. is_shown_as tag schema || b) (any-discover tag schemas)

sorted-cases :
    (found : Option (List UiEntity)) (entities : List UiEntity)
    → sorted_entities found ≡ some entities
    → (unsorted : List UiEntity) × (found ≡ some unsorted) × (entities ≡ sort_by_order unsorted)
sorted-cases none entities h = absurd (cc h)
sorted-cases (some unsorted) entities h = (unsorted, refl, cc)

-- Suppose that the entities of the user interface are discovered. They are in the ascending order of
-- their navigation, and one with a tag is among them exactly when a schema has that tag, a table, and a
-- navigation that is enabled.
pub discover_ui_entities_lem :
    (schemas : List (Text × Ast)) (entities : List UiEntity) (tag : Text)
    → discover_ui_entities schemas ≡ some entities
    → IsOrdered entities
      × (any (λ e. e.tag === tag) entities ≡ any (λ (s : Text × Ast). is_shown_as tag s.1) schemas)
unfolding discover_ui_entities
discover_ui_entities_lem schemas entities tag h =
    let (unsorted, found, e) =
      sorted-cases (ui_entities (discover_entity_schemas schemas)) entities h in
    (
      rw e (sort-IsOrdered unsorted),
      ap (any (has_tag tag)) e
          ∙ any-sort (has_tag tag) unsorted
          ∙ any-ui_entities tag (discover_entity_schemas schemas) unsorted found
          ∙ any-discover tag schemas,
    )
