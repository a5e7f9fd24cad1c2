-- ===== src/Store.antt =====
-- The database that the sync engine works on: packages/db/schema/modules/externalLinksSchema.ts and
-- edgesSchema.ts, the entity tables as far as the engine reads them, and the results of an effect.
-- Times are milliseconds. `_tag` columns are constants and are left out.
pub mod Keys
pub mod Effects
pub mod Failures
use openfaith.Common.{ℕ, Bool, List, Option, Text}

-- externalLinksTable
pub record ExternalLink : Type 0 where
  pub adapter : Text
  pub created_at : ℕ
  pub deleted_at : Option ℕ
  pub deleted_by : Option Text
  pub entity_id : Text
  pub entity_type : Text
  pub external_id : Text
  pub last_processed_at : ℕ
  pub org_id : Text
  pub syncing : Bool
  pub updated_at : Option ℕ

-- The JSON of an edge's `metadata`: what a caller gave, what a merge or the link of a
-- user to a person writes, or what the Planning
-- Center adapter writes.
pub data Metadata : Type 0 where
  empty : Metadata
  given : Text → Metadata
  merge : (keep_id relationship_key remove_id source : Text) → Metadata
  linked_at : ℕ → Metadata
  pco_direct : (relationship_key : Text) → Metadata

-- edgesTable
pub record Edge : Type 0 where
  pub created_at : ℕ
  pub created_by : Option Text
  pub deleted_at : Option ℕ
  pub deleted_by : Option Text
  pub metadata : Metadata
  pub org_id : Text
  pub relationship_type : Text
  pub source_entity_id : Text
  pub source_entity_type_tag : Text
  pub target_entity_id : Text
  pub target_entity_type_tag : Text
  pub updated_at : Option ℕ
  pub updated_by : Option Text

-- One element of an entity's `customFields`, with its `source`.
pub record CustomField : Type 0 where
  pub source : Option Text
  pub name : Text
  pub value : Text

-- A row of an entity table: `baseColumns`, the table that it stands in, and the columns of its own.
pub record Entity : Type 0 where
  pub table : Text
  pub tag : Text
  pub id : Text
  pub org_id : Text
  pub custom_fields : List CustomField
  pub deleted_at : Option ℕ
  pub deleted_by : Option Text
  pub columns : List (Text × Text)

-- usersTable
pub record User : Type 0 where
  pub id : Text
  pub email : Text

-- sacramentsTable
pub record Sacrament : Type 0 where
  pub id : Text
  pub org_id : Text
  pub type : Text
  pub created_at : ℕ
  pub created_by : Text
  pub updated_at : Option ℕ
  pub updated_by : Option Text

-- `next_id` counts the ids that `typeid` has made.
pub record Db : Type 0 where
  pub links : List ExternalLink
  pub edges : List Edge
  pub entities : List Entity
  pub relationships : List (Text × Text × List Text)
  pub users : List User
  pub sacraments : List Sacrament
  pub next_id : ℕ

pub data Error : Type 0 where
  external_link_upsert : (link_count : ℕ) (org_id : Text) → Error
  entity_deletion : (adapter external_id org_id : Text) → Error
  entity_merging : (adapter keep_id org_id remove_id : Text) → Error
  entity_processing : (entity_count : ℕ) (org_id : Text) → Error
  relationship_processing : (org_id : Text) (relationship_count : ℕ) → Error
  adapter_entity_not_found : (adapter entity_type : Text) → Error
  adapter_fetch : (adapter entity_type operation : Text) → Error
  no_such_element api_error : Error
  adapter_transform : (adapter entity_type : Text) → Error
  adapter_method_not_found : (adapter entity_type method : Text) → Error
  parse_error : Error
  webhook_retrieval webhook_no_org_id webhook_retrieve_org_id : (adapter : Text) → Error
  webhook_processing : (adapter : Text) → Error
  webhook_subscription : (adapter org_id : Text) → Error
  external_sync external_push external_webhook create_org : Error
  external_sync_entity : (entity_type token_key : Text) → Error

-- How an effect ends: with a value, a typed failure, or a defect (an exception that was thrown).
pub data Exit {ℓ} (A : Type ℓ) : Type ℓ where
  ok : A → Exit A
  fail : Error → Exit A
  die : Exit A

-- An effect over the database. What it did before it failed stays done: there is no transaction.
abbrev pub Exec {ℓ} : Type ℓ → Type ℓ
Exec A = Db → Exit A × Db

abbrev pub resume {ℓ κ} : {A : Type ℓ} {B : Type κ} → (A → Exec B) → Exit A → Exec B
resume k (ok a) db = k a db
resume k (fail e) db = (fail e, db)
resume k die db = (die, db)

infixl 5 ◌>>=◌ ◌>>◌
unfoldable pub ◌>>=◌ {ℓ κ} : {A : Type ℓ} {B : Type κ} → Exec A → (A → Exec B) → Exec B
◌>>=◌ m k db = resume k (m db).0 (m db).1

abbrev pub ◌>>◌ {ℓ κ} : {A : Type ℓ} {B : Type κ} → Exec A → Exec B → Exec B
m >> k = m >>= λ _. k

unfoldable pub pure {ℓ} : {A : Type ℓ} → A → Exec A
pure a db = (ok a, db)

unfoldable pub fails {ℓ} : {A : Type ℓ} → Error → Exec A
fails e db = (fail e, db)

-- An exception that no handler maps to a typed failure.
unfoldable pub dies {ℓ} : {A : Type ℓ} → Exec A
dies db = (die, db)

-- The rows that a SELECT reads.
unfoldable pub reads {ℓ} : {A : Type ℓ} → (Db → A) → Exec A
reads f db = (ok (f db), db)

-- An UPDATE of the database.
unfoldable pub writes : (Db → Db) → Exec (Unit {0})
writes f db = (ok tt, f db)

-- What the engine uses of the code around it: `new Date(text)`, the ids that `typeid` makes (the
-- n-th one for an entity type), the schema of an entity type and the table annotation of a schema.
pub record Runtime : Type 0 where
  pub parse_date : Text → ℕ
  pub new_id : ℕ → Text → Text
  pub schema_of : Text → Option Text
  pub table_of : Text → Option Text
