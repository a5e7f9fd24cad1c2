-- ===== src/Session/Laws.antt =====
-- Who gets in: backend/server/live/sessionMiddlewareLive.ts.
use openfaith.Common.{
  ◌≡◌, refl, arith, List, [], ◌∷◌, ◌++◌, Option, none, some, find, Text, lit, ◌===◌, ===_iff, inr,
}
use openfaith.Mutators.{AuthData}
use openfaith.Session.{
  SessionContext, UserSession, after_prefix, of_user_session, of_auth_data, of_session, decoded,
  verified, with_keys, with_bearer, with_authorization, set_session,
}

-- What is left of a text is what follows the prefix.
after_prefix_lem : (prefix t rest : Text) → after_prefix prefix t ≡ some rest → t ≡ prefix ++ rest
unfolding after_prefix
after_prefix_lem [] t rest h = cc
after_prefix_lem (c ∷ prefix) [] rest h = cc
after_prefix_lem (c ∷ prefix) (d ∷ t) rest h =
    ground (arith, after_prefix_lem prefix t rest, ===_iff (c ∷ []) (d ∷ []))

module _ {Keys Payload : Type 0} (get_jwks : Option Keys)
    (jwt_verify : Text → Keys → Option Payload) (decode_auth_data : Payload → Option AuthData)
    (get_session : List (Text × Text) → Option (Option UserSession)) where
  -- The user that a token names, which the keys verify.
  pub record ByToken (authorization : Text) (s : SessionContext) : Type 0 where
    pub token : Text
    pub keys : Keys
    pub payload : Payload
    pub auth_data : AuthData
    pub authorized : authorization ≡ lit "Bearer " ++ token
    pub has_keys : get_jwks ≡ some keys
    pub verifies : jwt_verify token keys ≡ some payload
    pub decodes : decode_auth_data payload ≡ some auth_data
    pub session_of : s ≡ of_auth_data auth_data

  -- The user of the session that the headers have.
  pub record ByCookie (headers : List (Text × Text)) (s : SessionContext) : Type 0 where
    pub session : UserSession
    pub has_session : get_session headers ≡ some (some session)
    pub session_of : s ≡ of_user_session session

  -- How a request gets in. With an authorization header, its cookies do not count.
  pub data Entry (headers : List (Text × Text)) (s : SessionContext) : Type 0 where
    by_token :
        (header : Text × Text)
        → find (λ (h : Text × Text). h.0 === lit "authorization") headers ≡ some header
        → ByToken header.1 s
        → Entry headers s
    by_cookie :
        find (λ (h : Text × Text). h.0 === lit "authorization") headers ≡ none
        → ByCookie headers s
        → Entry headers s

  of_session-ByCookie :
      (headers : List (Text × Text)) (s : SessionContext) (r : Option (Option UserSession))
      → get_session headers ≡ r
      → of_session r ≡ inr s
      → ByCookie headers s
  of_session-ByCookie headers s none e h = absurd (cc h)
  of_session-ByCookie headers s (some none) e h = absurd (cc h)
  of_session-ByCookie headers s (some (some session)) e h = record {
    session = session;
    has_session = e;
    session_of = cc;
  }

  decoded-ByToken :
      (authorization token : Text) (keys : Keys) (payload : Payload) (s : SessionContext)
      (a : Option AuthData)
      → authorization ≡ lit "Bearer " ++ token
      → get_jwks ≡ some keys
      → jwt_verify token keys ≡ some payload
      → decode_auth_data payload ≡ a
      → decoded get_jwks jwt_verify decode_auth_data get_session a ≡ inr s
      → ByToken authorization s
  decoded-ByToken authorization token keys payload s none b k v e h = absurd (cc h)
  decoded-ByToken authorization token keys payload s (some a) b k v e h = record {
    token = token;
    keys = keys;
    payload = payload;
    auth_data = a;
    authorized = b;
    has_keys = k;
    verifies = v;
    decodes = e;
    session_of = cc;
  }

  verified-ByToken :
      (authorization token : Text) (keys : Keys) (s : SessionContext) (p : Option Payload)
      → authorization ≡ lit "Bearer " ++ token
      → get_jwks ≡ some keys
      → jwt_verify token keys ≡ p
      → verified get_jwks jwt_verify decode_auth_data get_session p ≡ inr s
      → ByToken authorization s
  verified-ByToken authorization token keys s none b k e h = absurd (cc h)
  verified-ByToken authorization token keys s (some payload) b k e h =
      decoded-ByToken authorization token keys payload s (decode_auth_data payload) b k e refl h

  with_keys-ByToken :
      (authorization token : Text) (s : SessionContext) (keys : Option Keys)
      → authorization ≡ lit "Bearer " ++ token
      → get_jwks ≡ keys
      → with_keys get_jwks jwt_verify decode_auth_data get_session token keys ≡ inr s
      → ByToken authorization s
  with_keys-ByToken authorization token s none b e h = absurd (cc h)
  with_keys-ByToken authorization token s (some keys) b e h =
      verified-ByToken authorization token keys s (jwt_verify token keys) b e refl h

  with_bearer-ByToken :
      (authorization : Text) (s : SessionContext) (token : Option Text)
      → after_prefix (lit "Bearer ") authorization ≡ token
      → with_bearer get_jwks jwt_verify decode_auth_data get_session token ≡ inr s
      → ByToken authorization s
  with_bearer-ByToken authorization s none e h = absurd (cc h)
  with_bearer-ByToken authorization s (some token) e h =
      with_keys-ByToken authorization token s get_jwks
        (after_prefix_lem (lit "Bearer ") authorization token e) refl h

  authorization-Entry :
      (headers : List (Text × Text)) (s : SessionContext) (header : Option (Text × Text))
      → find (λ (h : Text × Text). h.0 === lit "authorization") headers ≡ header
      → with_authorization get_jwks jwt_verify decode_auth_data get_session headers header ≡ inr s
      → Entry headers s
  authorization-Entry headers s none e h =
      by_cookie e (of_session-ByCookie headers s (get_session headers) refl h)
  authorization-Entry headers s (some header) e h =
      by_token header e
        (with_bearer-ByToken header.1 s (after_prefix (lit "Bearer ") header.1) refl h)

  -- A request that gets in has an authorization header with a bearer token that the keys verify, and is
  -- of the user and the organisation that the payload of the token names; or it has no authorization
  -- header, and is of the user of the session that its headers have.
  pub set_session-Entry :
      (headers : List (Text × Text)) (s : SessionContext)
      → set_session get_jwks jwt_verify decode_auth_data get_session headers ≡ inr s
      → Entry headers s
  unfolding set_session
  set_session-Entry headers s h =
      authorization-Entry headers s
        (find (λ (x : Text × Text). x.0 === lit "authorization") headers) refl h
