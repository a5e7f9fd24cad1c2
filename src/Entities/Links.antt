-- ===== src/Entities/Links.antt =====
-- `processEntities` leaves the table of the links alone.
use openfaith.Common.{refl, inl, inr, List, [], ◌∷◌, map, Option, none, some, Option-cases, Text}
use openfaith.Sql.{upsert}
use openfaith.Store.{Entity, Error, Runtime}
use openfaith.Store.Effects.{Ensures, effect_rules, Ensures-bind, SameLinks, SameLinks-preorder}
use openfaith.Store.Keys.{entity_key, same_entity_key}
use openfaith.Entities.{set_entity, upsert_group, upsert_groups, process_entities}

module _ (rt : Runtime) (org : Text) where
  upsert_group-links :
      (e : Error) (table : Option Text) (entities : List Entity)
      → Ensures SameLinks (upsert_group rt org e table entities)
  unfolding upsert_group
  upsert_group-links e none entities = record { at = λ db. refl }
  upsert_group-links e (some table) entities = record {
    at = λ db.
        elim (Option-cases (
          upsert entity_key same_entity_key set_entity
            (map (λ (x : Entity). record x { table = table }) entities) db.entities)) [
              | inl n ↦ rw (n, upsert_group) refl
              | inr (r, s) ↦ rw (s, upsert_group) refl
            ];
  }

  upsert_groups-links :
      (e : Error) (groups : List (Text × List Entity))
      → Ensures SameLinks (upsert_groups rt org e groups)
  unfolding upsert_groups
  upsert_groups-links e [] = search (effect_rules, Ensures-bind, SameLinks-preorder)
  upsert_groups-links e ((tag, es) ∷ groups) =
      Ensures-bind SameLinks-preorder _ _ (upsert_group-links e _ es)
        (λ _. upsert_groups-links e groups)

  pub process_entities-links :
      (entities : List Entity) → Ensures SameLinks (process_entities rt org entities)
  unfolding process_entities
  process_entities-links entities = upsert_groups-links _ _
