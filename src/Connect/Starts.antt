-- ===== src/Connect/Starts.antt =====
-- Which syncs users start: backend/server/handlers/adapterHandler.ts and adminHandler.ts.
use openfaith.Common.{
  ◌≡◌, refl, ap, sym, ◌∙◌, arith, Bool, true, false, List, [], ◌∷◌, ◌++◌, append-nil, Option, none,
  some, if◌then◌else◌, Text, lit, ◌===◌, ===_iff, Bool-cases, ◌⊎◌, inl, inr, All,
}
use openfaith.Session.{SessionContext}
use openfaith.Connect.{
  Connections, Token, SyncPayload, start_sync, connect_with, connect_in, adapter_connect,
  adapter_not_found, not_admin, resync_answer, resync_in, adapter_resync, org_adapter_resync,
  Request, connect, resync, resync_org, handle, save_connection,
}

-- A sync of the user's own organisation in the name of the user, or any sync by an admin
abbrev pub MayStart : SessionContext → SyncPayload → Type 0
MayStart session p =
    ((session.active_organization_id ≡ some p.token_key) × (p.user_id ≡ some session.user_id))
    ⊎ (session.role ≡ lit "admin")

-- The syncs that are started beyond the first ones are allowed.
pub record StartsAllowed (session : SessionContext) (before after : Connections) : Type 0 where
  pub started : List SyncPayload
  pub follow : after.started ≡ before.started ++ started
  pub allowed : All (MayStart session) started

abbrev payload_of : (adapter token_key : Text) → Option Text → SyncPayload
payload_of adapter token_key user_id = record {
  adapter = adapter;
  token_key = token_key;
  user_id = user_id;
}

nothing : (session : SessionContext) (s : Connections) → StartsAllowed session s s
nothing session s = record { started = []; follow = sym (append-nil s.started); allowed = tt }

module _ (fetch_token : Text → Text → Option Token) (starts : SyncPayload → Bool) where
  start_sync-StartsAllowed :
      (session : SessionContext) (p : SyncPayload) (before s : Connections)
      → before.started ≡ s.started
      → MayStart session p
      → StartsAllowed session before (start_sync fetch_token starts p s).1
  unfolding start_sync
  start_sync-StartsAllowed session p before s e h = elim (Bool-cases (starts p)) [
    | inl q ↦
        rw q
          (record { started = p ∷ []; follow = ap (λ l. l ++ p ∷ []) (sym e); allowed = (h, tt) })
    | inr q ↦
        rw q
          (record { started = []; follow = sym e ∙ sym (append-nil before.started); allowed = tt })
  ]

  resync_answer-same : (r : Bool × Connections) → (resync_answer fetch_token starts r).1 ≡ r.1
  resync_answer-same (true, s) = refl
  resync_answer-same (false, s) = refl

  connect_with-StartsAllowed :
      (session : SessionContext) (org_id : Text) (fetched : Option Token) (s : Connections)
      → session.active_organization_id ≡ some org_id
      → StartsAllowed session s (connect_with fetch_token starts org_id session.user_id fetched s).1
  unfolding save_connection
  connect_with-StartsAllowed session org_id none s e = nothing session s
  connect_with-StartsAllowed session org_id (some token) s e =
      start_sync-StartsAllowed session _ s _ refl (inl (e, refl))

  connect_known-StartsAllowed :
      (session : SessionContext) (org_id code redirect_uri : Text) (s : Connections) (known : Bool)
      → session.active_organization_id ≡ some org_id
      → let result =
          if known
          then connect_with fetch_token starts org_id session.user_id
              (fetch_token code redirect_uri)
              s
          else (adapter_not_found, s) in
        StartsAllowed session s result.1
  connect_known-StartsAllowed session org_id code redirect_uri s true e =
      connect_with-StartsAllowed session org_id (fetch_token code redirect_uri) s e
  connect_known-StartsAllowed session org_id code redirect_uri s false e = nothing session s

  connect_in-StartsAllowed :
      (session : SessionContext) (adapter code redirect_uri : Text) (org : Option Text)
      (s : Connections)
      → session.active_organization_id ≡ org
      → StartsAllowed session s
          (connect_in fetch_token starts session.user_id adapter code redirect_uri org s).1
  connect_in-StartsAllowed session adapter code redirect_uri none s e = nothing session s
  connect_in-StartsAllowed session adapter code redirect_uri (some org_id) s e =
      connect_known-StartsAllowed session org_id code redirect_uri s (adapter === lit "pco") e

  resync_in-StartsAllowed :
      (session : SessionContext) (adapter : Text) (org : Option Text) (s : Connections)
      → session.active_organization_id ≡ org
      → StartsAllowed session s (resync_in fetch_token starts session.user_id adapter org s).1
  resync_in-StartsAllowed session adapter none s e = nothing session s
  resync_in-StartsAllowed session adapter (some org_id) s e =
      let payload = payload_of adapter org_id (some session.user_id) in
      rw (resync_answer-same (start_sync fetch_token starts payload s))
        (start_sync-StartsAllowed session payload s s refl (inl (e, refl)))

  org_resync-StartsAllowed :
      (session : SessionContext) (adapter org_id : Text) (s : Connections) (admin : Bool)
      → (session.role === lit "admin") ≡ admin
      → let payload = payload_of adapter org_id none in
        let result =
          if admin
          then resync_answer fetch_token starts (start_sync fetch_token starts payload s)
          else (not_admin, s) in
        StartsAllowed session s result.1
  org_resync-StartsAllowed session adapter org_id s true e =
      let payload = payload_of adapter org_id none in
      rw (resync_answer-same (start_sync fetch_token starts payload s)) (
        start_sync-StartsAllowed session payload s s refl
          (inr (ground (arith, ===_iff session.role (lit "admin")))))
  org_resync-StartsAllowed session adapter org_id s false e = nothing session s

  -- Whatever a user asks for, each sync that is started is of the active organisation of the user and in
  -- the name of the user, or the user is an admin.
  pub handle-StartsAllowed :
      (session : SessionContext) (request : Request) (s : Connections)
      → StartsAllowed session s (handle fetch_token starts session request s).1
  unfolding handle adapter_connect adapter_resync org_adapter_resync
  handle-StartsAllowed session (connect adapter code redirect_uri) s =
      connect_in-StartsAllowed session adapter code redirect_uri session.active_organization_id s
        refl
  handle-StartsAllowed session (resync adapter) s =
      resync_in-StartsAllowed session adapter session.active_organization_id s refl
  handle-StartsAllowed session (resync_org adapter org_id) s =
      org_resync-StartsAllowed session adapter org_id s (session.role === lit "admin") refl
