-- ===== src/Tests.antt =====
-- Small data on which the theorems are applied.
pub mod Tables
pub mod Sync
pub mod Graph
pub mod Push
pub mod Pushes
pub mod Account
pub mod Hooks
pub mod Schemas
pub mod Screens
pub mod Tokens
pub mod Words
pub mod Writes
pub mod Entrance
pub mod Flows
use openfaith.Common.{ℕ, ◌+◌, Bool, true, false, List, [], ◌∷◌, ◌++◌, Option, none, some, Text, lit}
use openfaith.Store.{ExternalLink, empty, Edge, Entity, CustomField, Db, Runtime}
use openfaith.Links.{ExternalLinkInput}
use openfaith.Pco.{PcoEntity, Page, EntityClient, Pco, pco}
use openfaith.Pco.Webhooks.{Event}
use openfaith.Pco.Webhooks.Subscribing.{Subscription, SubscriptionPage, WebhookApi}

abbrev pub org : Text
org = b'o' ∷ []

abbrev pub person : Text
person = b'p' ∷ []

abbrev pub people : Text
people = b't' ∷ []

-- A date is its first code unit.
abbrev pub date_of : Text → ℕ
date_of [] = 0
date_of (c ∷ _) = c

abbrev pub runtime : Runtime
runtime = record {
  parse_date = date_of;
  new_id = λ n type. (n + 65) ∷ type;
  schema_of = λ type. some type;
  table_of = λ schema. some people;
}

-- A link of Planning Center, processed at 5, with a date of 97.
abbrev pub link : (external_id entity_id : ℕ) → ExternalLink
unfolding pco
link external_id entity_id = record {
  adapter = pco;
  created_at = 1;
  deleted_at = none;
  deleted_by = none;
  entity_id = entity_id ∷ [];
  entity_type = person;
  external_id = external_id ∷ [];
  last_processed_at = 5;
  org_id = org;
  syncing = false;
  updated_at = some 97;
}

abbrev pub edge : (source target : ℕ) → Edge
edge source target = record {
  created_at = 1;
  created_by = none;
  deleted_at = none;
  deleted_by = none;
  metadata = empty;
  org_id = org;
  relationship_type = b'r' ∷ [];
  source_entity_id = source ∷ [];
  source_entity_type_tag = person;
  target_entity_id = target ∷ [];
  target_entity_type_tag = person;
  updated_at = none;
  updated_by = none;
}

abbrev pub field : (source name : Text) → CustomField
field source name = record { source = some source; name = name; value = [] }

abbrev pub entity : ℕ → List CustomField → Entity
entity id fields = record {
  table = people;
  tag = person;
  id = id ∷ [];
  org_id = org;
  custom_fields = fields;
  deleted_at = none;
  deleted_by = none;
  columns = [];
}

-- Three people a, b and c with the external ids x, y and z; a is linked to b.
abbrev pub db : Db
db = record {
  links = link b'x' b'a' ∷ link b'y' b'b' ∷ link b'z' b'c' ∷ [];
  edges = edge b'a' b'b' ∷ [];
  entities = entity b'a' [] ∷ entity b'b' [] ∷ [];
  relationships = [];
  users = [];
  sacraments = [];
  next_id = 0;
}

-- What Planning Center says of the external id, with its date.
abbrev pub input : (external_id date : ℕ) → ExternalLinkInput
input external_id date = record {
  adapter = pco;
  entity_id = none;
  external_id = external_id ∷ [];
  entity_type = person;
  created_at = some (date ∷ []);
  updated_at = some (date ∷ []);
}

abbrev pub pco_person : PcoEntity
pco_person = record {
  id = b'x' ∷ [];
  type = person;
  entity_id = none;
  created_at = b'a' ∷ [];
  updated_at = some (b'a' ∷ []);
  relationships = [];
  attributes = [];
}

abbrev pub first_page : Page
first_page = record {
  response = record { data_rows = pco_person ∷ []; included = [] };
  next_offset = none;
}

abbrev pub pages : ℕ → Option Page
pages o = some first_page

abbrev pub people_client : EntityClient
people_client = record {
  list = some pages;
  get = none;
  create = none;
  update = none;
  delete = some (λ id. true);
}

-- One page with one person, whose external id is x.
abbrev pub planning_center : Pco
planning_center = record {
  client = λ type. some people_client;
  keeps = λ type. none;
  transform = λ org id e. none;
  encode = λ type values. none;
  encode_partial = λ type values. none;
  schema_of = λ type. none;
  schemas = [];
  to_camel = λ type. type;
  parse_date = date_of;
}

-- The person x is destroyed.
abbrev pub destroyed : Event
unfolding lit
destroyed = record { name = lit "people.v2.events.person.destroyed"; data_row = pco_person }

abbrev pub home : Text
home = b'u' ∷ []

abbrev pub subscription : (id : ℕ) (active : Bool) (name : Text) → Subscription
subscription id active name = record { id = id ∷ []; name = name; url = home; active = active }

-- A page with the four subscriptions.
abbrev pub subscriptions : SubscriptionPage
unfolding lit
subscriptions = record {
  rows =
      subscription b'i' true (lit "people.v2.events.person.created")
      ∷ subscription b'j' true (lit "people.v2.events.person.updated")
      ∷ subscription b'k' true (lit "people.v2.events.person.destroyed")
      ∷ subscription b'l' true (lit "people.v2.events.person_merger.created")
      ∷ [];
  next_offset = none;
}

-- The empty payload is the event, any other is none.
abbrev decode_events : Text → Option (List Event)
decode_events [] = some (destroyed ∷ [])
decode_events (_ ∷ _) = none

-- A hash that is the secret and the body, one after the other.
abbrev pub webhook_api : WebhookApi
webhook_api = record {
  runtime = record {
    decode_payload = decode_events;
    sha256 = λ secret body. secret ++ body;
    from_hex = λ s. s;
  };
  client = record {
    list = λ o. some subscriptions;
    update = λ id. true;
    create = λ name url. none;
  };
  url = home;
}
