-- ===== src/Tests/Flows.antt =====
-- The workflows and the connection of an adapter on concrete data.
use openfaith.Common.{
  ℕ, ◌≤◌, arith, Bool-cases, inl, inr, ===_iff, Bool, true, false, ◌≡◌, refl, ap, ◌⊎◌, List, [],
  ◌∷◌, Option, none, some, Text, lit, ◌===◌, Memᴰ, All, head?,
}
use openfaith.Sql.{at_key}
use openfaith.Store.{
  Entity, User, Edge, Db, Exit, ok, fail, external_sync, external_webhook, pure, ◌>>=◌, reads,
  writes, fails, dies,
}
use openfaith.SyncEngine.{AdapterManager}
use openfaith.Pco.{pco}
use openfaith.Pco.Manifest.{
  Method, get, patch, Endpoint, mk_pco_entity_manifest, get_entity_manifest,
}
use openfaith.Pco.Manifest.Laws.{contains-sync_entities}
use openfaith.Relations.{contains}
use openfaith.Workflows.{retry, activity, for_each}
use openfaith.Workflows.People.{person_id, map_user_to_person}
use openfaith.Workflows.People.Laws.{map_user_to_person-again}
use openfaith.Workflows.Sync.{sync_entities}
use openfaith.Workflows.Seed.{seed_sacraments, sacrament_types, sacrament_key}
use openfaith.Workflows.Seed.Laws.{HasSacrament, seed_sacraments-HasSacrament}
use openfaith.Session.{SessionContext}
use openfaith.Connect.{Token, Connections, adapter_connect, resync, handle}
use openfaith.Connect.Starts.{StartsAllowed, handle-StartsAllowed}
use openfaith.Connect.Laws.{Uses, adapter_connect-Uses}
use openfaith.Tests.{org, runtime, edge, db}

abbrev row : (table id : Text) → List (Text × Text) → Entity
row table id columns = record {
  table = table;
  tag = [];
  id = id;
  org_id = org;
  custom_fields = [];
  deleted_at = none;
  deleted_by = none;
  columns = columns;
}

-- A user u whose email address is that of the email e, which is linked to the person p.
abbrev linked : Db
unfolding lit
linked = record db {
  users = record { id = b'u' ∷ []; email = b'@' ∷ [] } ∷ [];
  edges = edge b'e' b'p' ∷ [];
  entities =
      row (lit "emails") (b'e' ∷ []) ((lit "address", b'@' ∷ []) ∷ [])
      ∷ row (lit "people") (b'p' ∷ []) []
      ∷ [];
}

abbrev after_link : Db
after_link = (activity (map_user_to_person (λ _. 9) org (some (b'u' ∷ []))) linked).1

map_user_to_person-again_example :
    activity (map_user_to_person (λ _. 9) org (some (b'u' ∷ []))) after_link
    ≡ (fail external_sync, after_link)
unfolding person_id map_user_to_person openfaith.Workflows.People.person_ids
    openfaith.Workflows.People.emails_with openfaith.Workflows.People.user_email
    openfaith.Workflows.People.edges_of openfaith.Workflows.People.people_of
    openfaith.Workflows.People.insert_edge openfaith.Workflows.People.tag_of
    openfaith.Workflows.People.user_edge linked ◌===◌ retry ◌>>=◌ reads pure dies lit at_key
    openfaith.Store.Keys.same_edge_key openfaith.EdgeDirection.decode
    openfaith.EdgeDirection.goes_first openfaith.EdgeDirection.is_a_to_m openfaith.Common.text_lt
map_user_to_person-again_example =
    map_user_to_person-again (λ _. 9) org b'u' [] (b'p' ∷ []) linked refl refl

-- An adapter that has nothing to do.
abbrev pub quiet : AdapterManager
quiet = record {
  adapter = pco;
  create_entity = λ c entity_type internal_id value. pure tt;
  update_entity = λ c entity_type external_id internal_id value. pure tt;
  delete_entity = λ f entity_type external_id internal_id. pure tt;
  sync_entity_type = λ c entity_type. pure tt;
  process_webhook = λ c payload. pure tt;
  get_webhook_org_id = λ f hs payload. pure org;
  subscribe_to_webhooks = λ c. pure tt;
}

ids_differ :
    (n m : ℕ) → runtime.new_id n (lit "sacrament") ≡ runtime.new_id m (lit "sacrament") → n ≡ m
ids_differ n m e = omega (arith, ap head_or_zero e)
  where
    head_or_zero : Text → ℕ
    head_or_zero [] = 0
    head_or_zero (c ∷ s) = c

-- The organisation has a sacrament of the first type already, whose id was the first to be made.
abbrev seeded : Db
unfolding lit
seeded = record db {
  sacraments =
      record {
        id = runtime.new_id 0 (lit "sacrament");
        org_id = org;
        type = lit "salvation";
        created_at = 1;
        created_by = b'u' ∷ [];
        updated_at = none;
        updated_by = none;
      }
      ∷ [];
  next_id = 1;
}

new_ids_differ :
    (n : ℕ)
    → 1 ≤ n
    → (runtime.new_id 0 (lit "sacrament") === runtime.new_id n (lit "sacrament")) ≡ false
new_ids_differ n le =
    elim (Bool-cases (runtime.new_id 0 (lit "sacrament") === runtime.new_id n (lit "sacrament"))) [
      | inl e ↦ absurd (omega (arith, ids_differ 0 n ((===_iff _ _).0 e), le))
      | inr e ↦ e
    ]

seeded_fresh :
    (n : ℕ)
    → 1 ≤ n
    → at_key sacrament_key (λ a b. a === b) (runtime.new_id n (lit "sacrament")) seeded.sacraments
      ≡ none
unfolding at_key seeded
seeded_fresh n le = rw (new_ids_differ n le) refl

seed_sacraments-HasSacrament_example :
    let result = seed_sacraments runtime org (b'u' ∷ []) 5 seeded in
    (result.0 ≡ ok tt) × All (HasSacrament org result.1.sacraments) sacrament_types
unfolding at_key seeded
seed_sacraments-HasSacrament_example =
    seed_sacraments-HasSacrament runtime org (b'u' ∷ []) 5 seeded (refl, tt) seeded_fresh ids_differ

abbrev token : Token
token = record {
  access_token = b'A' ∷ [];
  created_at = 7;
  expires_in = 60;
  refresh_token = b'R' ∷ [];
}

abbrev session : SessionContext
session = record { user_id = b'u' ∷ []; role = b'u' ∷ []; active_organization_id = some org }

-- Another user of the organisation has connected before.
abbrev foreign_only : Connections
unfolding lit
foreign_only = record {
  tokens =
      record {
        access_token = b'x' ∷ [];
        adapter = lit "pco";
        created_at = 1;
        expires_in = 1;
        org_id = org;
        refresh_token = b'y' ∷ [];
        token_key = [];
        user_id = b'v' ∷ [];
      }
      ∷ [];
  details = [];
  started = [];
}

abbrev connected : Connections
connected =
    (adapter_connect (λ code uri. some token) (λ p. true) session (lit "pco") [] [] foreign_only).1

adapter_connect-Uses_example :
    (org_id : Text) × (some org ≡ some org_id)
    × Uses
        (λ code uri. some token)
        (λ p. true)
        org_id
        (b'u' ∷ [])
        []
        []
        foreign_only.tokens
        connected.tokens
unfolding adapter_connect ◌===◌ lit at_key
adapter_connect-Uses_example =
    adapter_connect-Uses (λ code uri. some token) (λ p. true) session (lit "pco") [] [] foreign_only
      (refl, tt) refl

handle-StartsAllowed_example :
    StartsAllowed session connected
      (handle (λ code uri. some token) (λ p. true) session (resync (lit "pco")) connected).1
handle-StartsAllowed_example =
    handle-StartsAllowed (λ code uri. some token) (λ p. true) session (resync (lit "pco")) connected

abbrev endpoint : (entity name : Text) → Method → Option Bool → Endpoint
endpoint entity name method skip_sync = record {
  entity = entity;
  name = name;
  module_name = lit "people";
  method = method;
  api_schema = entity;
  skip_sync = skip_sync;
  is_collection = true;
  includes = lit "emails" ∷ [];
  creatable_fields = none;
  updatable_fields = none;
}

abbrev endpoints : List Endpoint
endpoints =
    endpoint (lit "Person") (lit "update") patch none
    ∷ endpoint (lit "Email") (lit "list") get (some true)
    ∷ endpoint (lit "Person") (lit "list") get none
    ∷ []

contains-sync_entities_example :
    contains
      (lit "Person")
      (sync_entities (get_entity_manifest (mk_pco_entity_manifest (λ n. n) (λ n. n) endpoints)))
    ≡ true
unfolding ◌===◌ lit
contains-sync_entities_example = contains-sync_entities (λ n. n) (λ n. n) endpoints (lit "Person")
