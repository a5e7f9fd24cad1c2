-- ===== src/Connect.antt =====
-- backend/server/handlers/adapterHandler.ts and adminHandler.ts: a user connects an adapter, and asks for
-- a sync again.
pub mod Laws
pub mod Starts
use openfaith.Common.{
  ℕ, ◌*◌, Bool, true, false, ◌&&◌, List, [], ◌∷◌, ◌++◌, Option, none, some, if◌then◌else◌, Text,
  lit, ◌===◌,
}
use openfaith.Sql.{upsert_row}
use openfaith.TokenAuth.{TokenState}
use openfaith.Session.{SessionContext}

-- A row of adapterDetailsTable; the status of the sync is not read.
pub record AdapterDetails : Type 0 where
  pub adapter : Text
  pub created_at : ℕ
  pub enabled : Bool
  pub org_id : Text

-- The payload of ExternalSyncWorkflow
pub record SyncPayload : Type 0 where
  pub adapter : Text
  pub token_key : Text
  pub user_id : Option Text

-- The tables, and the workflows that were started. The rows of adapterTokensTable have no token key.
pub record Connections : Type 0 where
  pub tokens : List TokenState
  pub details : List AdapterDetails
  pub started : List SyncPayload

-- What `fetchTokenE` answers; `created_at` is in seconds.
pub record Token : Type 0 where
  pub access_token : Text
  pub created_at : ℕ
  pub expires_in : ℕ
  pub refresh_token : Text

-- AdapterConnectError, AdapterReSyncError and NotAdminError by their messages
pub data Answer : Type 0 where
  completed : Answer
  no_organization adapter_not_found failed_to_fetch_token failed_to_start_sync not_admin : Answer

-- `adapterTokensId`
abbrev pub token_key_of : TokenState → Text × Text × Text
token_key_of t = (t.user_id, t.org_id, t.adapter)

unfoldable pub same_token_key : Text × Text × Text → Text × Text × Text → Bool
same_token_key (u, o, a) (u', o', a') = u === u' && o === o' && a === a'

unfoldable pub set_token : (old new : TokenState) → TokenState
set_token old new = record old {
  access_token = new.access_token;
  created_at = new.created_at;
  expires_in = new.expires_in;
  refresh_token = new.refresh_token;
}

-- The row that is inserted for a token
unfoldable pub token_value : (adapter org_id user_id : Text) → Token → TokenState
token_value adapter org_id user_id token = record {
  access_token = token.access_token;
  adapter = adapter;
  created_at = token.created_at * 1000;
  expires_in = token.expires_in;
  org_id = org_id;
  refresh_token = token.refresh_token;
  token_key = [];
  user_id = user_id;
}

-- `adapterDetailsId`
abbrev pub details_key : AdapterDetails → Text × Text
details_key d = (d.org_id, d.adapter)

unfoldable pub same_details_key : Text × Text → Text × Text → Bool
same_details_key (o, a) (o', a') = o === o' && a === a'

unfoldable pub set_details : (old new : AdapterDetails) → AdapterDetails
set_details old new = record old { enabled = true }

-- The two statements of the connection. One row conflicts with no other of its statement.
unfoldable pub save_connection : (adapter org_id user_id : Text) → Token → Connections → Connections
save_connection adapter org_id user_id token s = record s {
  tokens =
      (upsert_row token_key_of same_token_key set_token (token_value adapter org_id user_id token)
        s.tokens).1;
  details =
      (upsert_row details_key same_details_key set_details
        (record {
          adapter = adapter;
          created_at = token.created_at * 1000;
          enabled = true;
          org_id = org_id;
        })
        s.details).1;
}

-- What a user may ask for
pub data Request : Type 0 where
  connect : (adapter code redirect_uri : Text) → Request
  resync : (adapter : Text) → Request
  resync_org : (adapter org_id : Text) → Request

-- `fetchTokenE` of an adapter for a code and a redirect URI, and whether a workflow starts.
module _ (fetch_token : Text → Text → Option Token) (starts : SyncPayload → Bool) where
  unfoldable pub start_sync : SyncPayload → Connections → Bool × Connections
  start_sync payload s =
      if starts payload
      then (true, record s { started = s.started ++ payload ∷ [] })
      else (false, s)

  -- What follows the token: a workflow that does not start is no failure.
  abbrev pub connect_with :
      (org_id user_id : Text) → Option Token → Connections → Answer × Connections
  connect_with org_id user_id none s = (failed_to_fetch_token, s)
  connect_with org_id user_id (some token) s = (
    completed,
    (start_sync (record { adapter = lit "pco"; token_key = org_id; user_id = some user_id })
        (save_connection (lit "pco") org_id user_id token s)).1,
  )

  abbrev pub connect_in :
      (user_id adapter code redirect_uri : Text) → Option Text → Connections → Answer × Connections
  connect_in user_id adapter code redirect_uri none s = (no_organization, s)
  connect_in user_id adapter code redirect_uri (some org_id) s =
      if adapter === lit "pco"
      then connect_with org_id user_id (fetch_token code redirect_uri) s
      else (adapter_not_found, s)

  -- `adapterConnect`; of adaptersApi there is only the adapter of Planning Center.
  unfoldable pub adapter_connect :
      SessionContext → (adapter code redirect_uri : Text) → Connections → Answer × Connections
  adapter_connect session adapter code redirect_uri s =
      connect_in session.user_id adapter code redirect_uri session.active_organization_id s

  abbrev resync_answer : Bool × Connections → Answer × Connections
  resync_answer (true, s) = (completed, s)
  resync_answer (false, s) = (failed_to_start_sync, s)

  abbrev pub resync_in : (user_id adapter : Text) → Option Text → Connections → Answer × Connections
  resync_in user_id adapter none s = (no_organization, s)
  resync_in user_id adapter (some org_id) s =
      resync_answer
        (start_sync (record { adapter = adapter; token_key = org_id; user_id = some user_id }) s)

  -- `adapterReSync`
  unfoldable pub adapter_resync :
      SessionContext → (adapter : Text) → Connections → Answer × Connections
  adapter_resync session adapter s =
      resync_in session.user_id adapter session.active_organization_id s

  -- `orgAdapterReSync`
  unfoldable pub org_adapter_resync :
      SessionContext → (adapter org_id : Text) → Connections → Answer × Connections
  org_adapter_resync session adapter org_id s =
      let resynced =
        resync_answer
          (start_sync (record { adapter = adapter; token_key = org_id; user_id = none }) s) in
      if session.role === lit "admin" then resynced else (not_admin, s)

  unfoldable pub handle : SessionContext → Request → Connections → Answer × Connections
  handle session (connect adapter code redirect_uri) s =
      adapter_connect session adapter code redirect_uri s
  handle session (resync adapter) s = adapter_resync session adapter s
  handle session (resync_org adapter org_id) s = org_adapter_resync session adapter org_id s
