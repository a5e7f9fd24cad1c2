-- ===== src/TokenAuth.antt =====
-- The access tokens of an organisation: backend/server/live/tokenAuthLive.ts, over
-- backend/server/live/tokenManagerLive.ts and adapters/adapter-core/layers/tokenManager.ts. Fibers that
-- ask for a token at the same time take steps in any order.
pub mod Invariant
pub mod Laws
use openfaith.Common.{
  ℕ, suc, ◌+◌, ◌*◌, Bool, true, false, ◌&&◌, ◌≡◌, List, [], ◌∷◌, Option, none, some, leb, ◌==◌,
  if◌then◌else◌, Memᴰ, Text, lit, ◌===◌,
}
use openfaith.Sql.{select, update}

-- `TokenState`, and a row of adapterTokensTable. Times are milliseconds, `expires_in` is in seconds.
pub record TokenState : Type 0 where
  pub access_token : Text
  pub adapter : Text
  pub created_at : ℕ
  pub expires_in : ℕ
  pub org_id : Text
  pub refresh_token : Text
  pub token_key : Text
  pub user_id : Text

-- What `refreshToken` of Planning Center answers.
pub record NewTokens : Type 0 where
  pub access_token : Text
  pub refresh_token : Text
  pub expires_in : ℕ

-- `expirationTime - 60_000 >= now`
unfoldable pub is_valid : ℕ → TokenState → Bool
is_valid now t = leb (now + 60000) (t.created_at + t.expires_in * 1000)

-- The new state after a refresh at a time.
abbrev pub renewed : TokenState → ℕ → NewTokens → TokenState
renewed t now new = record t {
  access_token = new.access_token;
  created_at = now;
  expires_in = new.expires_in;
  refresh_token = new.refresh_token;
}

-- A row of the organisation for Planning Center
abbrev pub is_token_of : (org_id : Text) → TokenState → Bool
is_token_of org_id t = t.org_id === org_id && t.adapter === lit "pco"

-- `loadTokenState` when it succeeds: SELECT has no ORDER BY, so that its first row may be any of them.
pub data LoadTokenState (key : Text) (tokens : List TokenState) : TokenState → Type 0 where
  loads :
      (t : TokenState)
      → Memᴰ t (select (is_token_of key) tokens)
      → LoadTokenState key tokens (record t { token_key = key })

-- `saveTokenState`
unfoldable pub save_token_state : TokenState → List TokenState → List TokenState
save_token_state s tokens =
    update
      (λ (t : TokenState).
        t.org_id === s.org_id && t.adapter === s.adapter && t.user_id === s.user_id)
      (λ (t : TokenState). record t {
        access_token = s.access_token;
        created_at = s.created_at;
        expires_in = s.expires_in;
        refresh_token = s.refresh_token;
      })
      tokens

-- Where a fiber stands in `getValidAccessToken`, outside of the two locks or inside of one.
pub data Phase : Type 0 where
  start wants_load ready wants_refresh inside failed : Phase
  finished : (access_token : Text) → Phase

-- Where the holder of the permit of `tokenLoadLock` stands.
pub data Loading : Type 0 where
  checking loading : Loading
  loaded : TokenState → Loading

-- Where the holder of the permit of `tokenRefreshLock` stands.
pub data Refreshing : Type 0 where
  rechecking : Refreshing
  sending exchanged saved : TokenState → Refreshing

-- What has happened: the refresh tokens that were read or issued and those that were used, the latest
-- first, how often a token was loaded, and whether a new token could not be saved.
pub record Log : Type 0 where
  pub issued : List Text
  pub used : List Text
  pub loads : ℕ
  pub lost : Bool

-- The stored tokens, the cached one of the organisation, the holders of the two locks, and the fibers.
pub data Auth : Type 0 where
  auth :
      (tokens : List TokenState) (cache : Option TokenState) (loader : Option (ℕ × Loading))
      (refresher : Option (ℕ × Refreshing)) (fibers : ℕ → Phase)
      → Log
      → Auth

abbrev pub move : ℕ → Phase → (ℕ → Phase) → ℕ → Phase
move i p fibers j = if j == i then p else fibers j

-- Nothing is cached, and every fiber is at the start.
abbrev pub initial : List TokenState → Auth
initial tokens =
    auth tokens none none none (λ i. start)
      (record { issued = []; used = []; loads = 0; lost = false })

-- The steps of `getOrgTokenStateRef` and of `getValidAccessToken`. Every step may read another time.
pub data Step (key : Text) : Auth → Auth → Type 0 where
  hit :
      {ts : List TokenState} {t : TokenState} {l : Option (ℕ × Loading)}
      {r : Option (ℕ × Refreshing)} {f : ℕ → Phase} {g : Log} (i : ℕ)
      → f i ≡ start
      → Step key (auth ts (some t) l r f g) (auth ts (some t) l r (move i ready f) g)
  miss :
      {ts : List TokenState} {l : Option (ℕ × Loading)} {r : Option (ℕ × Refreshing)}
      {f : ℕ → Phase} {g : Log} (i : ℕ)
      → f i ≡ start
      → Step key (auth ts none l r f g) (auth ts none l r (move i wants_load f) g)
  lock_load :
      {ts : List TokenState} {c : Option TokenState} {r : Option (ℕ × Refreshing)} {f : ℕ → Phase}
      {g : Log} (i : ℕ)
      → f i ≡ wants_load
      → Step key (auth ts c none r f g) (auth ts c (some (i, checking)) r (move i inside f) g)
  found_loaded :
      {ts : List TokenState} {t : TokenState} {r : Option (ℕ × Refreshing)} {f : ℕ → Phase}
      {g : Log} {i : ℕ}
      → Step key
          (auth ts (some t) (some (i, checking)) r f g)
          (auth ts (some t) none r (move i ready f) g)
  not_loaded :
      {ts : List TokenState} {r : Option (ℕ × Refreshing)} {f : ℕ → Phase} {g : Log} {i : ℕ}
      → Step key (auth ts none (some (i, checking)) r f g) (auth ts none (some (i, loading)) r f g)
  load_fails :
      {ts : List TokenState} {c : Option TokenState} {r : Option (ℕ × Refreshing)} {f : ℕ → Phase}
      {g : Log} {i : ℕ}
      → Step key (auth ts c (some (i, loading)) r f g) (auth ts c none r (move i failed f) g)
  load :
      {ts : List TokenState} {c : Option TokenState} {r : Option (ℕ × Refreshing)} {f : ℕ → Phase}
      {g : Log} {i : ℕ} (t : TokenState)
      → LoadTokenState key ts t
      → Step key (auth ts c (some (i, loading)) r f g) (
          auth ts c
            (some (i, loaded t))
            r
            f
            (record g { issued = t.refresh_token ∷ g.issued; loads = suc g.loads }))
  publish :
      {ts : List TokenState} {c : Option TokenState} {r : Option (ℕ × Refreshing)} {f : ℕ → Phase}
      {g : Log} {i : ℕ} {t : TokenState}
      → Step key (auth ts c (some (i, loaded t)) r f g) (auth ts (some t) none r (move i ready f) g)
  use_cached :
      {ts : List TokenState} {t : TokenState} {l : Option (ℕ × Loading)}
      {r : Option (ℕ × Refreshing)} {f : ℕ → Phase} {g : Log} (i now : ℕ)
      → f i ≡ ready
      → is_valid now t ≡ true
      → Step key
          (auth ts (some t) l r f g)
          (auth ts (some t) l r (move i (finished t.access_token) f) g)
  expired :
      {ts : List TokenState} {t : TokenState} {l : Option (ℕ × Loading)}
      {r : Option (ℕ × Refreshing)} {f : ℕ → Phase} {g : Log} (i now : ℕ)
      → f i ≡ ready
      → is_valid now t ≡ false
      → Step key (auth ts (some t) l r f g) (auth ts (some t) l r (move i wants_refresh f) g)
  lock_refresh :
      {ts : List TokenState} {c : Option TokenState} {l : Option (ℕ × Loading)} {f : ℕ → Phase}
      {g : Log} (i : ℕ)
      → f i ≡ wants_refresh
      → Step key (auth ts c l none f g) (auth ts c l (some (i, rechecking)) (move i inside f) g)
  found_refreshed :
      {ts : List TokenState} {t : TokenState} {l : Option (ℕ × Loading)} {f : ℕ → Phase} {g : Log}
      {i : ℕ} (now : ℕ)
      → is_valid now t ≡ true
      → Step key
          (auth ts (some t) l (some (i, rechecking)) f g)
          (auth ts (some t) l none (move i (finished t.access_token) f) g)
  send :
      {ts : List TokenState} {t : TokenState} {l : Option (ℕ × Loading)} {f : ℕ → Phase} {g : Log}
      {i : ℕ} (now : ℕ)
      → is_valid now t ≡ false
      → Step key
          (auth ts (some t) l (some (i, rechecking)) f g)
          (auth ts (some t) l (some (i, sending t)) f g)
  refuse :
      {ts : List TokenState} {c : Option TokenState} {l : Option (ℕ × Loading)} {f : ℕ → Phase}
      {g : Log} {i : ℕ} {t : TokenState}
      → Step key (auth ts c l (some (i, sending t)) f g) (auth ts c l none (move i failed f) g)
  exchange :
      {ts : List TokenState} {c : Option TokenState} {l : Option (ℕ × Loading)} {f : ℕ → Phase}
      {g : Log} {i : ℕ} {t : TokenState} (now : ℕ) (new : NewTokens)
      → Step key (auth ts c l (some (i, sending t)) f g) (
          auth ts c l
            (some (i, exchanged (renewed t now new)))
            f
            (record g { issued = new.refresh_token ∷ g.issued; used = t.refresh_token ∷ g.used }))
  save_fails :
      {ts : List TokenState} {c : Option TokenState} {l : Option (ℕ × Loading)} {f : ℕ → Phase}
      {g : Log} {i : ℕ} {t : TokenState}
      → Step key
          (auth ts c l (some (i, exchanged t)) f g)
          (auth ts c l none (move i failed f) (record g { lost = true }))
  save :
      {ts : List TokenState} {c : Option TokenState} {l : Option (ℕ × Loading)} {f : ℕ → Phase}
      {g : Log} {i : ℕ} {t : TokenState}
      → Step key
          (auth ts c l (some (i, exchanged t)) f g)
          (auth (save_token_state t ts) c l (some (i, saved t)) f g)
  finish :
      {ts : List TokenState} {c : Option TokenState} {l : Option (ℕ × Loading)} {f : ℕ → Phase}
      {g : Log} {i : ℕ} {t : TokenState}
      → Step key
          (auth ts c l (some (i, saved t)) f g)
          (auth ts (some t) l none (move i (finished t.access_token) f) g)

pub data Reach (key : Text) (tokens : List TokenState) : Auth → Type 0 where
  begin : Reach key tokens (initial tokens)
  later : {s s' : Auth} → Reach key tokens s → Step key s s' → Reach key tokens s'
