-- ===== src/Pco/Webhooks/Subscribing/Idle.antt =====
-- `subscribeToWebhooks` where Planning Center has all subscriptions already.
use openfaith.Common.{
  ℕ, Bool, true, ◌&&◌, ◌||◌, not, ◌≡◌, refl, List, [], ◌∷◌, Bool-cases, inl, inr, Text, arith, map,
  any, all, All, ◌===◌,
}
use openfaith.Store.{Db, ◌>>=◌, pure, ok}
use openfaith.SyncEngine.{Callbacks}
use openfaith.Pco.{Pco}
use openfaith.Pco.Webhooks.{Operation, webhook_operations}
use openfaith.Pco.Webhooks.Subscribing.{
  Subscription, SubscriptionClient, active, status_of, webhook_status, list_subscriptions,
  subscribe_webhook, subscribe_each, subscribe_to_webhooks,
}

-- No subscription to the address is inactive.
abbrev pub all_active : Text → List Subscription → Bool
all_active url = all (λ (s : Subscription). not (s.url === url) || s.active)

abbrev pub has_subscription : Text → List Subscription → Text → Bool
has_subscription url rows name = any (λ (s : Subscription). s.name === name && s.url === url) rows

status-active :
    (url name : Text) (rows : List Subscription)
    → all_active url rows ≡ true
    → has_subscription url rows name ≡ true
    → (id : Text) × (webhook_status rows url name ≡ active id)
unfolding webhook_status status_of
status-active url name [] a h = cc
status-active url name (s ∷ rows) a h = elim (Bool-cases (s.name === name && s.url === url)) [
  | inl e ↦ let on : s.active ≡ true = ground arith in (s.id, rw (e, on) refl)
  | inr e ↦ rw e (status-active url name rows (ground arith) (ground arith))
]

module _ (p : Pco) (org : Text) (client : SubscriptionClient) (url : Text) (callbacks : Callbacks)
    (rows : List Subscription) (a : all_active url rows ≡ true) where
  subscribe_each-idle :
      (operations : List (Text × Operation)) (db : Db)
      → All (λ (w : Text × Operation). has_subscription url rows w.0 ≡ true) operations
      → subscribe_each p org client url callbacks
          (map (λ (w : Text × Operation). (w.0, webhook_status rows url w.0)) operations)
          db
        ≡ (ok tt, db)
  unfolding subscribe_each subscribe_webhook ◌>>=◌ pure
  subscribe_each-idle [] db h = refl
  subscribe_each-idle (w ∷ ws) db (h, hs) =
      let (id, e) = status-active url w.0 rows a h in rw (e, subscribe_each-idle ws db hs) refl

  -- Suppose that the list of the subscriptions can be read, that none of those to the address is
  -- inactive, and that every supported webhook has one. Then subscribing succeeds, whatever updates
  -- and creations would do, and the database stays the same.
  pub subscribe_to_webhooks-idle :
      (fuel : ℕ) (db : Db)
      → list_subscriptions p org client url fuel 0 db ≡ (ok rows, db)
      → All (λ (w : Text × Operation). has_subscription url rows w.0 ≡ true) webhook_operations
      → subscribe_to_webhooks p org client url fuel callbacks db ≡ (ok tt, db)
  unfolding subscribe_to_webhooks ◌>>=◌
  subscribe_to_webhooks-idle fuel db l h = rw l (subscribe_each-idle webhook_operations db h)
