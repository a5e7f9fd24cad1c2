-- ===== src/TokenAuth/Laws.antt =====
-- In what order the refresh tokens are used, over all interleavings of the fibers.
use openfaith.Common.{
  ℕ, ◌≤◌, true, false, ◌≡◌, sym, ap, ◌∙◌, ◌⊎◌, inl, inr, List, ◌∷◌, Option, none, some, arith, Text,
}
use openfaith.TokenAuth.{
  TokenState, Phase, Loading, checking, loading, loaded, Refreshing, rechecking, sending, exchanged,
  saved, Log, Auth, auth, move, failed, inside, wants_refresh, is_valid, save_fails, lock_refresh,
  send, Reach, later,
}
use openfaith.TokenAuth.Invariant.{Unloaded, Refresh, IsSpent, Cached, Reach-Inv}

abbrev pub log_of : Auth → Log
log_of (auth ts c l r f g) = g

-- Every token that was issued is used, or all but the last.
abbrev IsInOrder : Log → Type 0
IsInOrder g = (g.issued ≡ g.used) ⊎ ((t : Text) × (g.issued ≡ t ∷ g.used))

Unloaded-IsInOrder :
    (l : Option (ℕ × Loading)) (g : Log) → Unloaded l g → IsInOrder g × (g.loads ≤ 1)
Unloaded-IsInOrder none g (i, u, n) = (inl (i ∙ sym u), omega (arith, n))
Unloaded-IsInOrder (some (j, checking)) g (i, u, n) = (inl (i ∙ sym u), omega (arith, n))
Unloaded-IsInOrder (some (j, loading)) g (i, u, n) = (inl (i ∙ sym u), omega (arith, n))
Unloaded-IsInOrder (some (j, loaded t)) g (i, u, n) =
    (inr (t.refresh_token, i ∙ ap (λ x. t.refresh_token ∷ x) (sym u)), omega (arith, n))

Refresh-IsInOrder :
    (c : TokenState) (r : Option (ℕ × Refreshing)) (g : Log)
    → Refresh c r g
    → g.lost ≡ false
    → IsInOrder g
Refresh-IsInOrder c none g h k = inr (c.refresh_token, h k)
Refresh-IsInOrder c (some (i, rechecking)) g h k = inr (c.refresh_token, h k)
Refresh-IsInOrder c (some (i, sending t)) g (_, h) k = inr (c.refresh_token, h k)
Refresh-IsInOrder c (some (i, exchanged t)) g (h, _) k = inr (t.refresh_token, h k)
Refresh-IsInOrder c (some (i, saved t)) g (h, _) k = inr (t.refresh_token, h k)

Cached-IsInOrder :
    (c : Option TokenState) (l : Option (ℕ × Loading)) (r : Option (ℕ × Refreshing)) (g : Log)
    → Cached c l r g
    → (g.lost ≡ false → IsInOrder g) × (g.loads ≤ 1)
Cached-IsInOrder none l none g h = let (o, n) = Unloaded-IsInOrder l g h in ((λ _. o), n)
Cached-IsInOrder none l (some x) g h = absurd h
Cached-IsInOrder (some c) l r g (_, h, n) = (Refresh-IsInOrder c r g h, omega (arith, n))

-- In every interleaving in which every new token could be saved, the refresh tokens are used in the
-- order in which they were issued, each once, and at most the last of them is not used yet.
pub used-IsInOrder :
    (key : Text) (tokens : List TokenState) (s : Auth)
    → Reach key tokens s
    → (log_of s).lost ≡ false
    → ((log_of s).issued ≡ (log_of s).used)
      ⊎ ((t : Text) × ((log_of s).issued ≡ t ∷ (log_of s).used))
used-IsInOrder key tokens (auth ts c l r f g) reach kept =
    (Cached-IsInOrder c l r g (Reach-Inv key tokens _ reach).0).0 kept

-- In every interleaving, a token of the organisation is loaded from the database at most once.
pub loads_le :
    (key : Text) (tokens : List TokenState) (s : Auth) → Reach key tokens s → (log_of s).loads ≤ 1
loads_le key tokens (auth ts c l r f g) reach =
    (Cached-IsInOrder c l r g (Reach-Inv key tokens _ reach).0).1

Cached-IsSpent :
    (old : TokenState) (l : Option (ℕ × Loading)) (i : ℕ) (t : TokenState) (g : Log)
    → Cached (some old) l (some (i, exchanged t)) g
    → IsSpent old g
Cached-IsSpent old l i t g (_, (_, spent), _) = spent

-- Where the new tokens cannot be saved after a refresh, the lock of the refresh is free again, the cached
-- token is still the one whose refresh token was the last to be used, and every other fiber that waits
-- for the lock can go on, with the cached token expired, until it sends that same refresh token again.
pub save_fails-IsSpent :
    (key : Text) (tokens ts : List TokenState) (old : TokenState) (l : Option (ℕ × Loading)) (i : ℕ)
    (t : TokenState) (f : ℕ → Phase) (g : Log) (j now : ℕ)
    → Reach key tokens (auth ts (some old) l (some (i, exchanged t)) f g)
    → move i failed f j ≡ wants_refresh
    → is_valid now old ≡ false
    → Reach key tokens (auth ts (some old) l none (move i failed f) (record g { lost = true }))
      × IsSpent old g
      × Reach key tokens (
          auth ts
            (some old)
            l
            (some (j, sending old))
            (move j inside (move i failed f))
            (record g { lost = true }))
save_fails-IsSpent key tokens ts old l i t f g j now reach waits stale = (
  later reach save_fails,
  Cached-IsSpent old l i t g (Reach-Inv key tokens _ reach).0,
  later (later (later reach save_fails) (lock_refresh j waits)) (send now stale),
)
