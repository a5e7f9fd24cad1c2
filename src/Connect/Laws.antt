-- ===== src/Connect/Laws.antt =====
-- Which token is used after a user has connected Planning Center: backend/server/handlers/adapterHandler.ts
-- over backend/server/live/tokenManagerLive.ts.
use openfaith.Common.{
  Memᴰ, filter, not, inl, inr, Bool-cases, All, ◌*◌, ===_iff, ◌≡◌, refl, ap, arith, ◌∙◌, Bool, true,
  false, ◌&&◌, List, [], ◌∷◌, Option, none, some, if◌then◌else◌, Text, lit, ◌===◌, ===-refl,
}
use openfaith.Sql.{select, upsert_row, at_key}
use openfaith.Sql.Laws.{HasUniqueKeys}
use openfaith.TokenAuth.{TokenState, is_token_of, LoadTokenState, loads}
use openfaith.Session.{SessionContext}
use openfaith.Connect.{
  Connections, Token, completed, adapter_not_found, token_key_of, same_token_key, set_token,
  token_value, save_connection, start_sync, connect_with, connect_in, adapter_connect, SyncPayload,
}

-- The row has the tokens that were fetched.
pub record HasTokens (token : Token) (t : TokenState) : Type 0 where
  pub access_token : t.access_token ≡ token.access_token
  pub refresh_token : t.refresh_token ≡ token.refresh_token
  pub expires_in : t.expires_in ≡ token.expires_in
  pub created_at : t.created_at ≡ token.created_at * 1000

abbrev pub HasUniqueTokens : List TokenState → Type 0
HasUniqueTokens tokens = HasUniqueKeys token_key_of same_token_key tokens

filter-both :
    (p q : TokenState → Bool) (xs : List TokenState)
    → filter (λ t. p t && q t) xs ≡ filter q (filter p xs)
filter-both p q [] = refl
filter-both p q (y ∷ xs) = ground (arith, filter-both p q xs)

Mem-if :
    (b : Bool) (x y : TokenState) (zs ys : List TokenState)
    → (Memᴰ x zs → Memᴰ x ys)
    → Memᴰ x (if b then y ∷ zs else zs)
    → Memᴰ x (y ∷ ys)
Mem-if false x y zs ys later m = Memᴰ.tail (later m)
Mem-if true x y zs ys later (Memᴰ.head e) = Memᴰ.head e
Mem-if true x y zs ys later (Memᴰ.tail m) = Memᴰ.tail (later m)

Mem-filter :
    (q : TokenState → Bool) (ys : List TokenState) (x : TokenState)
    → Memᴰ x (filter q ys)
    → Memᴰ x ys
Mem-filter q [] x m = m
Mem-filter q (y ∷ ys) x m = Mem-if (q y) x y (filter q ys) ys (Mem-filter q ys x) m

module _ (org_id user_id : Text) where
  abbrev pub own : List TokenState → List TokenState
  own tokens = select (λ t. is_token_of org_id t && t.user_id === user_id) tokens

  abbrev pub others : List TokenState → List TokenState
  others tokens = select (λ t. is_token_of org_id t && not (t.user_id === user_id)) tokens

  module _ (token : Token) where
    abbrev new_row : TokenState
    new_row = token_value (lit "pco") org_id user_id token

    abbrev stored_tokens : List TokenState → List TokenState
    stored_tokens tokens = (upsert_row token_key_of same_token_key set_token new_row tokens).1

    others-upsert_row : (tokens : List TokenState) → others (stored_tokens tokens) ≡ others tokens
    unfolding upsert_row same_token_key set_token token_value
    others-upsert_row [] = rw (===-refl user_id) (ground arith)
    others-upsert_row (t ∷ tokens) = ground (arith, others-upsert_row tokens)

    own-none :
        (tokens : List TokenState)
        → at_key token_key_of same_token_key (token_key_of new_row) tokens ≡ none
        → own tokens ≡ []
    unfolding at_key same_token_key token_value
    own-none [] h = refl
    own-none (t ∷ tokens) h = ground (arith, own-none tokens)

    abbrev OwnRow : List TokenState → Type 0
    OwnRow tokens = (t : TokenState) × (own tokens ≡ t ∷ []) × HasTokens token t

    matches :
        (t : TokenState)
        → same_token_key (token_key_of t) (token_key_of new_row) ≡ true
        → (t.org_id ≡ org_id) × (t.adapter ≡ lit "pco") × (t.user_id ≡ user_id)
    unfolding same_token_key token_value
    matches t h = (
      ground (arith, ===_iff t.org_id org_id),
      ground (arith, ===_iff t.adapter (lit "pco")),
      ground (arith, ===_iff t.user_id user_id),
    )

    own-first :
        (t : TokenState) (tokens : List TokenState)
        → (t.org_id ≡ org_id) × (t.adapter ≡ lit "pco") × (t.user_id ≡ user_id)
        → own tokens ≡ []
        → own (t ∷ tokens) ≡ t ∷ []
    own-first t tokens (o, a, u) h =
        let is_own : (is_token_of org_id t && t.user_id === user_id) ≡ true = ground (
          arith,
          ===_iff t.org_id org_id,
          ===_iff t.adapter (lit "pco"),
          ===_iff t.user_id user_id,
        ) in
        rw is_own (ap (λ ts. t ∷ ts) h)

    own-skip :
        (t : TokenState) (tokens : List TokenState)
        → same_token_key (token_key_of t) (token_key_of new_row) ≡ false
        → own (t ∷ tokens) ≡ own tokens
    unfolding same_token_key token_value
    own-skip t tokens h = ground arith

    own-upsert_row :
        (tokens : List TokenState) → HasUniqueTokens tokens → OwnRow (stored_tokens tokens)
    unfolding upsert_row token_value set_token same_token_key ◌===◌
    own-upsert_row [] u = (
      new_row,
      own-first new_row [] (refl, refl, refl) refl,
      record { access_token = refl; refresh_token = refl; expires_in = refl; created_at = refl },
    )
    own-upsert_row (t ∷ tokens) (fresh, u) =
        elim (Bool-cases (same_token_key (token_key_of t) (token_key_of new_row))) [
          | inl q ↦
              let (o, a, k) = matches t q in
              rw q (
                set_token t new_row,
                own-first (set_token t new_row) tokens (o, a, k)
                    (own-none tokens (rw (← o, ← a, ← k) fresh)),
                record {
                  access_token = refl;
                  refresh_token = refl;
                  expires_in = refl;
                  created_at = refl;
                },
              )
          | inr q ↦
              let (x, e, has) = own-upsert_row tokens u in
              rw q (x, own-skip t (stored_tokens tokens) q ∙ e, has)
        ]

    -- What may be loaded after the row was stored: it, and each row of another user.
    stored-loads :
        (tokens : List TokenState) (t : TokenState)
        → own (stored_tokens tokens) ≡ t ∷ []
        → LoadTokenState org_id (stored_tokens tokens) (record t { token_key = org_id })
    stored-loads tokens t e = loads t (
        Mem-filter (λ x. x.user_id === user_id) (select (is_token_of org_id) (stored_tokens tokens))
          t
          (rw
            (
              ← filter-both (is_token_of org_id) (λ x. x.user_id === user_id)
                  (stored_tokens tokens),
              e,
            )
            (Memᴰ.head refl)))

    others-load :
        (tokens : List TokenState) (t : TokenState)
        → Memᴰ t (others tokens)
        → LoadTokenState org_id (stored_tokens tokens) (record t { token_key = org_id })
    others-load tokens t m = loads t (
        Mem-filter (λ x. not (x.user_id === user_id))
          (select (is_token_of org_id) (stored_tokens tokens)) t
          (rw
            (
              ← filter-both (is_token_of org_id) (λ x. not (x.user_id === user_id))
                  (stored_tokens tokens),
              others-upsert_row tokens,
            )
            m))

module _ (fetch_token : Text → Text → Option Token) (starts : SyncPayload → Bool) where
  tokens-start_sync :
      (payload : SyncPayload) (s : Connections)
      → (start_sync fetch_token starts payload s).1.tokens ≡ s.tokens
  unfolding start_sync
  tokens-start_sync payload s = ground arith

  -- The user's one row has the token that was fetched, and it may be loaded; the rows of other users are
  -- as they were, and each of them may be loaded still.
  pub record Uses (org_id user_id code redirect_uri : Text) (before after : List TokenState)
      : Type 0 where
    pub token : Token
    pub row : TokenState
    pub fetched : fetch_token code redirect_uri ≡ some token
    pub own_row : own org_id user_id after ≡ row ∷ []
    pub has_tokens : HasTokens token row
    pub row_loads : LoadTokenState org_id after (record row { token_key = org_id })
    pub others_kept : others org_id user_id after ≡ others org_id user_id before
    pub others_load :
        All
          (λ (t : TokenState). LoadTokenState org_id after (record t { token_key = org_id }))
          (others org_id user_id before)

  All-Mem :
      (P : TokenState → Type 0) (xs : List TokenState)
      → ((t : TokenState) → Memᴰ t xs → P t)
      → All P xs
  All-Mem P [] f = tt
  All-Mem P (x ∷ xs) f = (f x (Memᴰ.head refl), All-Mem P xs (λ t m. f t (Memᴰ.tail m)))

  connect_with-Uses :
      (org_id user_id code redirect_uri : Text) (fetched : Option Token) (s : Connections)
      → HasUniqueTokens s.tokens
      → fetch_token code redirect_uri ≡ fetched
      → (connect_with fetch_token starts org_id user_id fetched s).0 ≡ completed
      → Uses org_id user_id code redirect_uri s.tokens
          (connect_with fetch_token starts org_id user_id fetched s).1.tokens
  unfolding save_connection
  connect_with-Uses org_id user_id code redirect_uri none s u e h = absurd (cc h)
  connect_with-Uses org_id user_id code redirect_uri (some token) s u e h =
      let (row, own_row, has) = own-upsert_row org_id user_id token s.tokens u in
      rw
        (tokens-start_sync
          (record { adapter = lit "pco"; token_key = org_id; user_id = some user_id })
          (save_connection (lit "pco") org_id user_id token s))
        (record {
          token = token;
          row = row;
          fetched = e;
          own_row = own_row;
          has_tokens = has;
          row_loads = stored-loads org_id user_id token s.tokens row own_row;
          others_kept = others-upsert_row org_id user_id token s.tokens;
          others_load =
              All-Mem
                (λ (t : TokenState).
                  LoadTokenState org_id (stored_tokens org_id user_id token s.tokens)
                    (record t { token_key = org_id }))
                (others org_id user_id s.tokens) (others-load org_id user_id token s.tokens);
        })

  connect_known-Uses :
      (org_id user_id code redirect_uri : Text) (s : Connections) (known : Bool)
      → HasUniqueTokens s.tokens
      → let result =
          if known
          then connect_with fetch_token starts org_id user_id (fetch_token code redirect_uri) s
          else (adapter_not_found, s) in
        result.0 ≡ completed → Uses org_id user_id code redirect_uri s.tokens result.1.tokens
  connect_known-Uses org_id user_id code redirect_uri s true u h =
      connect_with-Uses org_id user_id code redirect_uri (fetch_token code redirect_uri) s u refl h
  connect_known-Uses org_id user_id code redirect_uri s false u h = absurd (cc h)

  connect_in-Uses :
      (user_id adapter code redirect_uri : Text) (org : Option Text) (s : Connections)
      → HasUniqueTokens s.tokens
      → let result = connect_in fetch_token starts user_id adapter code redirect_uri org s in
        result.0 ≡ completed
        → (org_id : Text) × (org ≡ some org_id)
          × Uses org_id user_id code redirect_uri s.tokens result.1.tokens
  connect_in-Uses user_id adapter code redirect_uri none s u h = absurd (cc h)
  connect_in-Uses user_id adapter code redirect_uri (some org_id) s u h = (
    org_id,
    refl,
    connect_known-Uses org_id user_id code redirect_uri s (adapter === lit "pco") u h,
  )

  -- Suppose that the primary keys of the tokens are unique. When a user has connected an adapter, the user
  -- has an active organisation, a token was fetched, and the one row of the user for Planning Center has
  -- it. That row may be loaded for the organisation, but so may the row of any other user of the
  -- organisation, all of which are as they were.
  pub adapter_connect-Uses :
      (session : SessionContext) (adapter code redirect_uri : Text) (s : Connections)
      → HasUniqueTokens s.tokens
      → let result = adapter_connect fetch_token starts session adapter code redirect_uri s in
        result.0 ≡ completed
        → (org_id : Text) × (session.active_organization_id ≡ some org_id)
          × Uses org_id session.user_id code redirect_uri s.tokens result.1.tokens
  unfolding adapter_connect
  adapter_connect-Uses session adapter code redirect_uri s u h =
      connect_in-Uses session.user_id adapter code redirect_uri session.active_organization_id s u h
