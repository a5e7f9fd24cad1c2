-- ===== src/Pco/Client.antt =====
-- What the Planning Center adapter works on: the data of its requests, and its parameters.
use openfaith.Common.{ℕ, Bool, List, Option, Text, lit}
use openfaith.Store.{Entity}
use openfaith.Schema.{Ast}
use openfaith.SyncEngine.{Values}

-- `PcoBaseEntity`: a relationship has a key and the id of its data, if any.
pub record PcoEntity : Type 0 where
  pub id : Text
  pub type : Text
  pub entity_id : Option Text
  pub created_at : Text
  pub updated_at : Option Text
  pub relationships : List (Text × Option Text)
  pub attributes : Values

pub record Response : Type 0 where
  pub data_rows : List PcoEntity
  pub included : List PcoEntity

-- A page of a list and the offset of the next one.
pub record Page : Type 0 where
  pub response : Response
  pub next_offset : Option ℕ

-- The methods that the client has for an entity type; a request that fails gives none.
pub record EntityClient : Type 0 where
  pub list : Option (ℕ → Option Page)
  pub get : Option (Text → Option Response)
  pub create : Option (Values → Option Response)
  pub update : Option (Text → Values → Option Response)
  pub delete : Option (Text → Bool)

pub record Pco : Type 0 where
  pub client : Text → Option EntityClient
  -- the filter annotation of the schema of a type
  pub keeps : Text → Option (PcoEntity → Bool)
  -- `transformSingleEntity`, `transformEntityDataE`, `transformPartialEntityDataE`
  pub transform : (org id : Text) → PcoEntity → Option Entity
  pub encode : Text → Values → Option Values
  pub encode_partial : Text → Values → Option Values
  -- `getEntitySchemaOpt`
  pub schema_of : Text → Option Ast
  -- the exports of the schemas by their names; one that is no schema is none
  pub schemas : List (Text × Option Ast)
  -- an entity type in camel case, as the effect library makes it
  pub to_camel : Text → Text
  -- `new Date(text)`
  pub parse_date : Text → ℕ

unfoldable pub pco : Text
pco = lit "pco"
