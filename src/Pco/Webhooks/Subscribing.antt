-- ===== src/Pco/Webhooks/Subscribing.antt =====
-- `subscribeToWebhooks` of adapters/pco/pcoAdapterManagerLive.ts.
pub mod Idle
use openfaith.Common.{
  ℕ, zero, suc, Bool, true, false, ◌&&◌, List, [], ◌∷◌, ◌++◌, map, Option, none, some,
  if◌then◌else◌, find, Text, ◌===◌,
}
use openfaith.Store.{api_error, webhook_subscription, Exec, ◌>>=◌, ◌>>◌, pure, dies}
use openfaith.SyncEngine.{Callbacks}
use openfaith.Pco.{Response, Pco, pco, require, map_error, normalize_response, process_pco_data}
use openfaith.Pco.Webhooks.{Operation, webhook_operations, WebhookRuntime}

-- A subscription that Planning Center has.
pub record Subscription : Type 0 where
  pub id : Text
  pub name : Text
  pub url : Text
  pub active : Bool

pub record SubscriptionPage : Type 0 where
  pub rows : List Subscription
  pub next_offset : Option ℕ

-- `pcoClient.WebhookSubscription`; a request that fails gives none, or false.
pub record SubscriptionClient : Type 0 where
  pub list : ℕ → Option SubscriptionPage
  pub update : (id : Text) → Bool
  pub create : (name url : Text) → Option Response

-- What the manager needs for webhooks: `webhookUrl` is made of the environment.
pub record WebhookApi : Type 0 where
  pub runtime : WebhookRuntime
  pub client : SubscriptionClient
  pub url : Text

-- `WebhookStatus`
pub data WebhookStatus : Type 0 where
  active inactive : (id : Text) → WebhookStatus
  unset : WebhookStatus

abbrev is_subscription : (name url : Text) → Subscription → Bool
is_subscription name url s = s.name === name && s.url === url

status_of : Option Subscription → WebhookStatus
status_of none = unset
status_of (some s) = if s.active then active s.id else inactive s.id

-- The status of a supported webhook.
unfoldable pub webhook_status : List Subscription → (url name : Text) → WebhookStatus
unfolding status_of
webhook_status subscriptions url name = status_of (find (is_subscription name url) subscriptions)

module _ (p : Pco) (org : Text) (client : SubscriptionClient) (url : Text) where
  -- An offset of 0 ends the stream as a missing one does.
  abbrev next_rows : (ℕ → Exec (List Subscription)) → Option ℕ → Exec (List Subscription)
  next_rows next none = pure []
  next_rows next (some zero) = pure []
  next_rows next (some (suc n)) = next (suc n)

  -- The pages of the list, from an offset on. The fuel bounds how many are read.
  unfoldable pub list_subscriptions : ℕ → ℕ → Exec (List Subscription)
  list_subscriptions zero offset = dies
  list_subscriptions (suc fuel) offset =
      let next = λ (o : ℕ). list_subscriptions fuel o in
      (do
        page ← require (webhook_subscription pco org) (client.list offset)
        rest ← next_rows next page.next_offset
        pure (page.rows ++ rest))

  abbrev confirmed : Bool → Option (Unit {0})
  confirmed true = some tt
  confirmed false = none

  -- What is done for a webhook of a status.
  unfoldable pub subscribe_webhook : Callbacks → Text → WebhookStatus → Exec (Unit {0})
  subscribe_webhook callbacks name (inactive id) = require api_error (confirmed (client.update id))
  subscribe_webhook callbacks name (active id) = pure tt
  subscribe_webhook callbacks name unset = do
    response ← require api_error (client.create name url)
    map_error (webhook_subscription pco org) (
        process_pco_data p (record callbacks { process_relationships = λ relationships. pure tt })
          org (normalize_response p response) false)

  unfoldable pub subscribe_each : Callbacks → List (Text × WebhookStatus) → Exec (Unit {0})
  subscribe_each callbacks [] = pure tt
  subscribe_each callbacks ((name, status) ∷ rest) = do
    subscribe_webhook callbacks name status
    subscribe_each callbacks rest

  -- The status of every supported webhook.
  abbrev pub webhook_statuses : List Subscription → List (Text × WebhookStatus)
  webhook_statuses subscriptions =
      map (λ (w : Text × Operation). (w.0, webhook_status subscriptions url w.0)) webhook_operations

  -- `subscribeToWebhooks`
  unfoldable pub subscribe_to_webhooks : ℕ → Callbacks → Exec (Unit {0})
  subscribe_to_webhooks fuel callbacks = do
    subscriptions ← list_subscriptions fuel 0
    subscribe_each callbacks (webhook_statuses subscriptions)
