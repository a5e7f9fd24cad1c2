-- ===== src/Tests/Tokens.antt =====
-- The theorems on access tokens, on a run of one fiber that refreshes its token.
use openfaith.Common.{
  ℕ, ◌≤◌, true, false, ◌≡◌, refl, ◌⊎◌, List, [], ◌∷◌, Memᴰ, none, some, lit, ◌===◌,
}
use openfaith.TokenAuth.{
  TokenState, NewTokens, is_valid, renewed, loads, start, wants_load, ready, wants_refresh, inside,
  exchanged, Auth, auth, move, Phase, hit, failed, sending, miss, lock_load, not_loaded, load,
  publish, expired, lock_refresh, send, exchange, Reach, begin, later,
}
use openfaith.TokenAuth.Invariant.{IsSpent}
use openfaith.TokenAuth.Laws.{log_of, used-IsInOrder, loads_le, save_fails-IsSpent}
use openfaith.Tests.{org}

-- A stored token that has expired at once.
abbrev token : TokenState
unfolding lit
token = record {
  access_token = b'a' ∷ [];
  adapter = lit "pco";
  created_at = 0;
  expires_in = 0;
  org_id = org;
  refresh_token = b'r' ∷ [];
  token_key = org;
  user_id = b'u' ∷ [];
}

abbrev new : NewTokens
new = record { access_token = b'b' ∷ []; refresh_token = b's' ∷ []; expires_in = 7200 }

-- The fiber 0 has got the new tokens, and is to save them.
abbrev refreshed : Auth
refreshed =
    auth (token ∷ []) (some token) none (some (0, exchanged (renewed token 5 new)))
      (move 0 inside
        (move 0 wants_refresh (move 0 ready (move 0 inside (move 0 wants_load (λ i. start))))))
      (record {
        issued = (b's' ∷ []) ∷ (b'r' ∷ []) ∷ [];
        used = (b'r' ∷ []) ∷ [];
        loads = 1;
        lost = false;
      })

reach : Reach org (token ∷ []) refreshed
unfolding is_valid lit ◌===◌
reach =
    later
      (later
        (later
          (later
            (later
              (later (later (later (later begin (miss 0 refl)) (lock_load 0 refl)) not_loaded)
                (load token (loads token (Memᴰ.head refl))))
              publish)
            (expired 0 5 refl refl))
          (lock_refresh 0 refl))
        (send 5 refl))
      (exchange 5 new)

used-IsInOrder_example :
    ((log_of refreshed).issued ≡ (log_of refreshed).used)
    ⊎ ((t : List ℕ) × ((log_of refreshed).issued ≡ t ∷ (log_of refreshed).used))
used-IsInOrder_example = used-IsInOrder org (token ∷ []) refreshed reach refl

loads_le_example : (log_of refreshed).loads ≤ 1
loads_le_example = loads_le org (token ∷ []) refreshed reach

-- The fiber 1 has found the old token in the cache, and waits for the lock.
abbrev contended : ℕ → Phase
contended = move 1 wants_refresh (
    move 1 ready (
      move 0 inside
        (move 0 wants_refresh (move 0 ready (move 0 inside (move 0 wants_load (λ i. start)))))))

Reach-contended : Reach org (token ∷ []) (
    auth
      (token ∷ [])
      (some token)
      none
      (some (0, exchanged (renewed token 5 new)))
      contended
      (log_of refreshed))
unfolding is_valid lit ◌===◌
Reach-contended = later (later reach (hit 1 refl)) (expired 1 5 refl refl)

save_fails-IsSpent_example :
    Reach org (token ∷ []) (
      auth
        (token ∷ [])
        (some token)
        none
        none
        (move 0 failed contended)
        (record (log_of refreshed) { lost = true }))
    × IsSpent token (log_of refreshed)
    × Reach org (token ∷ []) (
        auth
          (token ∷ [])
          (some token)
          none
          (some (1, sending token))
          (move 1 inside (move 0 failed contended))
          (record (log_of refreshed) { lost = true }))
unfolding is_valid lit ◌===◌
save_fails-IsSpent_example =
    save_fails-IsSpent org (token ∷ []) (token ∷ []) token none 0 (renewed token 5 new) contended
      (log_of refreshed) 1 6 Reach-contended refl refl
