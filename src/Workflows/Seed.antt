-- ===== src/Workflows/Seed.antt =====
-- backend/workers/workflows/createOrgWorkflow.ts: what a new organisation starts with.
pub mod Laws
use openfaith.Common.{
  ℕ, ◌+◌, suc, Bool, ◌&&◌, List, [], ◌∷◌, ◌++◌, map, length, Option, none, some, find, Text, lit,
  ◌===◌,
}
use openfaith.Sql.{select, upsert}
use openfaith.Store.{
  Sacrament, Db, Error, create_org, Exit, ok, fail, Exec, ◌>>=◌, ◌>>◌, reads, Runtime,
}
use openfaith.Relations.{RelationshipTypes}
use openfaith.Relationships.{update_entity_relationships}
use openfaith.Workflows.{activity}

abbrev pub sacrament_key : Sacrament → Text
sacrament_key s = s.id

-- ON CONFLICT DO UPDATE of the seed
unfoldable pub set_sacrament : (old new : Sacrament) → Sacrament
set_sacrament old new = record old {
  updated_at = some new.created_at;
  updated_by = some new.created_by;
}

unfoldable pub sacrament_types : List Text
sacrament_types = lit "salvation" ∷ lit "baptismWater" ∷ lit "baptismHolySpirit" ∷ []

module _ (rt : Runtime) (organization_id user_id : Text) (created_at : ℕ) where
  abbrev id_or_new : ℕ → Option Sacrament → Text
  id_or_new n none = rt.new_id n (lit "sacrament")
  id_or_new n (some s) = s.id

  -- The row for a type: the id of the sacrament of the type that the organisation has, or a new one.
  unfoldable pub sacrament_value : List Sacrament → ℕ → Text → Sacrament
  sacrament_value current n type = record {
    id = id_or_new n (find (λ (s : Sacrament). s.type === type) current);
    org_id = organization_id;
    type = type;
    created_at = created_at;
    created_by = user_id;
    updated_at = none;
    updated_by = none;
  }

  unfoldable pub sacrament_values : List Sacrament → ℕ → List Text → List Sacrament
  sacrament_values current n [] = []
  sacrament_values current n (t ∷ ts) =
      sacrament_value current n t ∷ sacrament_values current (suc n) ts

  abbrev pub current_sacraments : Db → List Sacrament
  current_sacraments db = select (λ (s : Sacrament). s.org_id === organization_id) db.sacraments

  abbrev pub seeded : Db → Option (List Sacrament × List Sacrament) → Exit (Unit {0}) × Db
  seeded db none = (fail create_org, db)
  seeded db (some (returned, table)) =
      (ok tt, record db { sacraments = table; next_id = db.next_id + length sacrament_types })

  -- 'SeedDefaultSacraments', whose errors become the one of the workflow
  unfoldable pub seed_sacraments : Exec (Unit {0})
  seed_sacraments db = seeded db (
      upsert sacrament_key (λ a b. a === b) set_sacrament
        (sacrament_values (current_sacraments db) db.next_id sacrament_types) db.sacraments)

  -- 'SeedEntityRelationships'
  unfoldable pub default_relationships : List RelationshipTypes
  default_relationships =
      record {
        source_entity_type_tag = lit "person";
        target_entity_type_tags =
            lit "phoneNumber" ∷ lit "address" ∷ lit "campus" ∷ lit "user" ∷ lit "email" ∷ [];
      }
      ∷ []

  -- `CreateOrgWorkflow`
  unfoldable pub create_org_workflow : (List Text → List Text) → Exec (Unit {0})
  create_org_workflow sort_distinct =
      activity seed_sacraments
      >> activity (
          update_entity_relationships sort_distinct organization_id create_org
            default_relationships)
