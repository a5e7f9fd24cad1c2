-- ===== src/Session.antt =====
-- backend/server/live/sessionMiddlewareLive.ts: whose request it is.
pub mod Laws
use openfaith.Common.{
  List, [], ◌∷◌, Option, none, some, if◌then◌else◌, find, Text, lit, ◌===◌, ◌⊎◌, inl, inr,
}
use openfaith.Mutators.{AuthData}

-- `SessionContext`
pub record SessionContext : Type 0 where
  pub user_id : Text
  pub role : Text
  pub active_organization_id : Option Text

-- A session of better-auth, with its user
pub record UserSession : Type 0 where
  pub user_id : Text
  pub role : Option Text
  pub active_organization_id : Option Text

pub data SessionFailure : Type 0 where
  session_error : SessionFailure
  invalid_authorization_header invalid_token unauthorized : SessionFailure

-- The text after a prefix, if it starts with it.
unfoldable pub after_prefix : Text → Text → Option Text
after_prefix [] text = some text
after_prefix (c ∷ prefix) [] = none
after_prefix (c ∷ prefix) (d ∷ text) =
    let rest = after_prefix prefix text in if (c ∷ []) === (d ∷ []) then rest else none

-- A user without a role is `user`.
abbrev pub role_or_user : Option Text → Text
role_or_user none = lit "user"
role_or_user (some role) = role

abbrev pub of_user_session : UserSession → SessionContext
of_user_session s = record {
  user_id = s.user_id;
  role = role_or_user s.role;
  active_organization_id = s.active_organization_id;
}

abbrev pub of_auth_data : AuthData → SessionContext
of_auth_data a = record {
  user_id = a.sub;
  role = a.role;
  active_organization_id = a.active_organization_id;
}

-- What `auth.api.getSession` gives: null without a session.
abbrev of_session : Option (Option UserSession) → SessionFailure ⊎ SessionContext
of_session none = inl session_error
of_session (some none) = inl unauthorized
of_session (some (some s)) = inr (of_user_session s)

-- What the libraries answer: the keys, unless they cannot be read; the payload of a token that the keys
-- verify; `AuthData` for a payload that has its form; and the session for the headers, which may be
-- rejected or null.
module _ {Keys Payload : Type 0} (get_jwks : Option Keys)
    (jwt_verify : Text → Keys → Option Payload) (decode_auth_data : Payload → Option AuthData)
    (get_session : List (Text × Text) → Option (Option UserSession)) where
  abbrev decoded : Option AuthData → SessionFailure ⊎ SessionContext
  decoded none = inl invalid_token
  decoded (some a) = inr (of_auth_data a)

  abbrev verified : Option Payload → SessionFailure ⊎ SessionContext
  verified none = inl invalid_token
  verified (some payload) = decoded (decode_auth_data payload)

  abbrev with_keys : (token : Text) → Option Keys → SessionFailure ⊎ SessionContext
  with_keys token none = inl session_error
  with_keys token (some keys) = verified (jwt_verify token keys)

  abbrev with_bearer : (token : Option Text) → SessionFailure ⊎ SessionContext
  with_bearer none = inl invalid_authorization_header
  with_bearer (some token) = with_keys token get_jwks

  abbrev pub with_authorization :
      List (Text × Text) → Option (Text × Text) → SessionFailure ⊎ SessionContext
  with_authorization headers none = of_session (get_session headers)
  with_authorization headers (some (_, authorization)) =
      with_bearer (after_prefix (lit "Bearer ") authorization)

  -- `setSession`, for headers with names in lower case
  unfoldable pub set_session : (headers : List (Text × Text)) → SessionFailure ⊎ SessionContext
  set_session headers =
      with_authorization headers (find (λ (h : Text × Text). h.0 === lit "authorization") headers)
