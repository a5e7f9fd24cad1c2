-- ===== src/Workflows/People.antt =====
-- `mapUserToPerson` of backend/workers/workflows/externalSyncWorkflow.ts.
pub mod Laws
use openfaith.Common.{
  ℕ, Bool, true, false, ◌&&◌, List, [], ◌∷◌, ◌++◌, map, Option, none, some, if◌then◌else◌, find,
  head?, Text, lit, ◌===◌,
}
use openfaith.Sql.{select, at_key}
use openfaith.Store.{
  Metadata, linked_at, Edge, Entity, User, Db, Error, external_sync, Exit, ok, fail, die, Exec,
  ◌>>=◌, pure, reads, dies,
}
use openfaith.Store.Keys.{edge_key, same_edge_key}
use openfaith.Relations.{flat_map}
use openfaith.EdgeDirection.{EdgeDirection, decode}

abbrev email_or_empty : Option User → Text
email_or_empty none = []
email_or_empty (some u) = u.email

-- The email address of a user, or the empty text.
unfoldable pub user_email : Text → Db → Text
user_email user_id db = email_or_empty (head? (select (λ (u : User). u.id === user_id) db.users))

-- The column `address` of a row
has_address : Text → Entity → Bool
has_address address e = elim (find (λ (c : Text × Text). c.0 === lit "address") e.columns) [
  | none ↦ false
  | some c ↦ c.1 === address
]

-- A LEFT JOIN: with no match there is one row, without the other side.
abbrev or_null {ℓ} : {A : Type ℓ} → List (Option A) → List (Option A)
or_null [] = none ∷ []
or_null (x ∷ xs) = x ∷ xs

-- LEFT JOIN people ON edges.targetEntityId = people.id
unfoldable pub people_of : List Entity → Option Edge → List (Option Text)
people_of entities none = none ∷ []
people_of entities (some e) = or_null (
    map (λ (p : Entity). some p.id)
      (select (λ (p : Entity). p.table === lit "people" && p.id === e.target_entity_id) entities))

-- LEFT JOIN edges ON emails.id = edges.sourceEntityId
unfoldable pub edges_of : List Edge → Entity → List (Option Edge)
edges_of edges email =
    or_null (map some (select (λ (e : Edge). email.id === e.source_entity_id) edges))

-- The emails with an address, of every organisation
unfoldable pub emails_with : Text → List Entity → List Entity
unfolding has_address
emails_with address entities =
    select (λ (e : Entity). e.table === lit "emails" && has_address address e) entities

unfoldable pub person_ids : Text → Db → List (Option Text)
person_ids address db =
    flat_map (people_of db.entities)
      (flat_map (edges_of db.edges) (emails_with address db.entities))

abbrev flat {ℓ} : {A : Type ℓ} → Option (Option A) → Option A
flat none = none
flat (some o) = o

-- `personIdOpt`: the id in the first row, if it has one.
unfoldable pub person_id : Text → Db → Option Text
person_id user_id db = flat (head? (person_ids (user_email user_id db) db))

starts_with : Text → Text → Bool
starts_with [] s = true
starts_with (c ∷ p) [] = false
starts_with (c ∷ p) (d ∷ s) = (c ∷ [] === d ∷ []) && starts_with p s

unfoldable pub tag_of : Text → Text
unfolding starts_with
tag_of id = if starts_with (lit "user") id then lit "user" else lit "person"

-- The edge between a user and a person
unfoldable pub user_edge : (org_id : Text) → ℕ → EdgeDirection → Edge
user_edge org_id now d = record {
  created_at = now;
  created_by = none;
  deleted_at = none;
  deleted_by = none;
  metadata = linked_at now;
  org_id = org_id;
  relationship_type = lit "user-is-person";
  source_entity_id = d.source;
  source_entity_type_tag = tag_of d.source;
  target_entity_id = d.target;
  target_entity_type_tag = tag_of d.target;
  updated_at = none;
  updated_by = none;
}

abbrev pub inserting : Error → Edge → Db → Option Edge → Exit (Unit {0}) × Db
inserting error e db none = (ok tt, record db { edges = db.edges ++ e ∷ [] })
inserting error e db (some old) = (fail error, db)

-- An INSERT without ON CONFLICT is refused when the primary key is there.
unfoldable pub insert_edge : Error → Edge → Exec (Unit {0})
insert_edge error e db = inserting error e db (at_key edge_key same_edge_key (edge_key e) db.edges)

-- The direction of the edge; `decodeUnknownSync` throws without one.
abbrev link_person : (org_id : Text) → ℕ → Option EdgeDirection → Exec (Unit {0})
link_person org_id now none = dies
link_person org_id now (some d) = insert_edge external_sync (user_edge org_id now d)

abbrev link_found : (org_id user_id : Text) → ℕ → Option Text → Exec (Unit {0})
link_found org_id user_id now none = pure tt
link_found org_id user_id now (some person) = link_person org_id now (decode user_id person)

-- `mapUserToPerson`; without a user, or with an empty id, it does nothing.
unfoldable pub map_user_to_person : (Db → ℕ) → (org_id : Text) → Option Text → Exec (Unit {0})
map_user_to_person clock org_id none = pure tt
map_user_to_person clock org_id (some []) = pure tt
map_user_to_person clock org_id (some (c ∷ user)) = do
  person ← reads (person_id (c ∷ user))
  now ← reads clock
  link_found org_id (c ∷ user) now person
