-- ===== src/TokenAuth/Invariant.antt =====
-- What holds of the cached token and the refresh tokens in every state that the fibers can reach.
use openfaith.Common.{
  ℕ, suc, Bool, true, false, ◌≡◌, refl, sym, ap, ◌∙◌, List, [], ◌∷◌, Option, none, some, ◌==◌,
  if◌then◌else◌, Text,
}
use openfaith.TokenAuth.{
  TokenState, NewTokens, renewed, Phase, wants_load, ready, wants_refresh, inside, failed, Loading,
  checking, loading, loaded, Refreshing, rechecking, sending, exchanged, saved, Log, Auth, auth,
  move, Step, hit, miss, lock_load, found_loaded, not_loaded, load_fails, load, publish, use_cached,
  expired, lock_refresh, found_refreshed, send, refuse, exchange, save_fails, save, finish, Reach,
  begin, later,
}

-- Before a token is cached.
abbrev pub Unloaded : Option (ℕ × Loading) → Log → Type 0
Unloaded (some (i, loaded t)) g = (g.issued ≡ t.refresh_token ∷ []) × (g.used ≡ []) × (g.loads ≡ 1)
Unloaded _ g = (g.issued ≡ []) × (g.used ≡ []) × (g.loads ≡ 0)

-- Afterwards no fiber loads.
abbrev Idle : Option (ℕ × Loading) → Type 0
Idle none = Unit
Idle (some (i, checking)) = Unit
Idle (some (i, loading)) = ⊥
Idle (some (i, loaded t)) = ⊥

-- Unless a token was lost, the token of `t` is the only one that is not used yet.
abbrev IsNext : TokenState → Log → Type 0
IsNext t g = g.lost ≡ false → g.issued ≡ t.refresh_token ∷ g.used

-- The token of `t` was the last to be used.
abbrev pub IsSpent : TokenState → Log → Type 0
IsSpent t g = (rest : List Text) × (g.used ≡ t.refresh_token ∷ rest)

abbrev pub Refresh : TokenState → Option (ℕ × Refreshing) → Log → Type 0
Refresh c none g = IsNext c g
Refresh c (some (i, rechecking)) g = IsNext c g
Refresh c (some (i, sending t)) g = (t ≡ c) × IsNext c g
Refresh c (some (i, exchanged t)) g = IsNext t g × IsSpent c g
Refresh c (some (i, saved t)) g = IsNext t g × IsSpent c g

abbrev pub Cached :
    Option TokenState → Option (ℕ × Loading) → Option (ℕ × Refreshing) → Log → Type 0
Cached none l none g = Unloaded l g
Cached none l (some _) g = ⊥
Cached (some c) l r g = Idle l × Refresh c r g × (g.loads ≡ 1)

abbrev pub needs : Phase → Bool
needs ready = true
needs wants_refresh = true
needs _ = false

abbrev is_cached : Option TokenState → Bool
is_cached none = false
is_cached (some t) = true

-- A fiber has its reference to the cached token.
abbrev HasToken : Option TokenState → (ℕ → Phase) → Type 0
HasToken c f = (j : ℕ) → needs (f j) ≡ true → is_cached c ≡ true

abbrev pub Inv : Auth → Type 0
Inv (auth ts c l r f g) = Cached c l r g × HasToken c f

needs-moved :
    (b : Bool) (p q : Phase) → needs p ≡ false → needs (if b then p else q) ≡ true → needs q ≡ true
needs-moved true p q n e = cc
needs-moved false p q n e = e

HasToken-move :
    (c : Option TokenState) (f : ℕ → Phase) (i : ℕ) (p : Phase)
    → needs p ≡ false
    → HasToken c f
    → HasToken c (move i p f)
HasToken-move c f i p n h j e = h j (needs-moved (j == i) p (f j) n e)

-- A failed load leaves everything as it was.
Cached-unlock :
    (c : Option TokenState) (r : Option (ℕ × Refreshing)) (i : ℕ) (g : Log)
    → Cached c (some (i, loading)) r g
    → Cached c none r g
Cached-unlock none none i g h = h
Cached-unlock none (some r) i g h = h
Cached-unlock (some t) r i g (h, _, _) = absurd h

Cached-lock :
    (c : Option TokenState) (r : Option (ℕ × Refreshing)) (i : ℕ) (g : Log)
    → Cached c none r g
    → Cached c (some (i, checking)) r g
Cached-lock none none i g h = h
Cached-lock none (some r) i g h = h
Cached-lock (some t) r i g h = h

Cached-load :
    (c : Option TokenState) (r : Option (ℕ × Refreshing)) (i : ℕ) (g : Log) (t : TokenState)
    → Cached c (some (i, loading)) r g
    → Cached c
        (some (i, loaded t))
        r
        (record g { issued = t.refresh_token ∷ g.issued; loads = suc g.loads })
Cached-load none none i g t (issued, used, loads) =
    (ap (λ x. t.refresh_token ∷ x) issued, used, ap suc loads)
Cached-load none (some r) i g t h = h
Cached-load (some c) r i g t (h, _, _) = absurd h

Cached-publish :
    (c : Option TokenState) (r : Option (ℕ × Refreshing)) (i : ℕ) (g : Log) (t : TokenState)
    → Cached c (some (i, loaded t)) r g
    → Cached (some t) none r g
Cached-publish none none i g t (issued, used, loads) =
    (tt, (λ _. issued ∙ ap (λ x. t.refresh_token ∷ x) (sym used)), loads)
Cached-publish none (some r) i g t h = absurd h
Cached-publish (some c) r i g t (h, _, _) = absurd h

Cached-lock_refresh :
    (c : Option TokenState) (l : Option (ℕ × Loading)) (i : ℕ) (g : Log)
    → is_cached c ≡ true
    → Cached c l none g
    → Cached c l (some (i, rechecking)) g
Cached-lock_refresh none l i g e h = cc
Cached-lock_refresh (some t) l i g e h = h

Cached-refuse :
    (c : Option TokenState) (l : Option (ℕ × Loading)) (i : ℕ) (t : TokenState) (g : Log)
    → Cached c l (some (i, sending t)) g
    → Cached c l none g
Cached-refuse none l i t g h = absurd h
Cached-refuse (some c) l i t g (idle, (_, next), loads) = (idle, next, loads)

Cached-exchange :
    (c : Option TokenState) (l : Option (ℕ × Loading)) (i : ℕ) (t : TokenState) (g : Log) (now : ℕ)
    (new : NewTokens)
    → Cached c l (some (i, sending t)) g
    → Cached c l
        (some (i, exchanged (renewed t now new)))
        (record g { issued = new.refresh_token ∷ g.issued; used = t.refresh_token ∷ g.used })
Cached-exchange none l i t g now new h = h
Cached-exchange (some c) l i t g now new (idle, (same, next), loads) = (
  idle,
  (
    (λ kept.
        ap (λ x. new.refresh_token ∷ x)
          (next kept ∙ ap (λ (x : TokenState). x.refresh_token ∷ g.used) (sym same))),
    (g.used, ap (λ (x : TokenState). x.refresh_token ∷ g.used) same),
  ),
  loads,
)

Cached-lost :
    (c : Option TokenState) (l : Option (ℕ × Loading)) (i : ℕ) (t : TokenState) (g : Log)
    → Cached c l (some (i, exchanged t)) g
    → Cached c l none (record g { lost = true })
Cached-lost none l i t g h = absurd h
Cached-lost (some c) l i t g (idle, _, loads) = (idle, (λ kept. cc), loads)

Cached-save :
    (c : Option TokenState) (l : Option (ℕ × Loading)) (i : ℕ) (t : TokenState) (g : Log)
    → Cached c l (some (i, exchanged t)) g
    → Cached c l (some (i, saved t)) g
Cached-save none l i t g h = h
Cached-save (some c) l i t g h = h

Cached-finish :
    (c : Option TokenState) (l : Option (ℕ × Loading)) (i : ℕ) (t : TokenState) (g : Log)
    → Cached c l (some (i, saved t)) g
    → Cached (some t) l none g
Cached-finish none l i t g h = absurd h
Cached-finish (some c) l i t g (idle, (next, _), loads) = (idle, next, loads)

Inv-step : (key : Text) (s s' : Auth) → Step key s s' → Inv s → Inv s'
Inv-step key _ _ (hit i e) (c, h) = (c, λ j _. refl)
Inv-step key _ _ (miss {f = f} i e) (c, h) = (c, HasToken-move none f i wants_load refl h)
Inv-step key _ _ (lock_load {c = t} {r = r} {f = f} {g = g} i e) (c, h) =
    (Cached-lock t r i g c, HasToken-move t f i inside refl h)
Inv-step key _ _ found_loaded ((_, c, n), h) = ((tt, c, n), λ j _. refl)
Inv-step key _ _ (not_loaded {r = none}) (c, h) = (c, h)
Inv-step key _ _ (not_loaded {r = some _}) (c, h) = (c, h)
Inv-step key _ _ (load_fails {c = t} {r = r} {f = f} {g = g} {i = i}) (c, h) =
    (Cached-unlock t r i g c, HasToken-move t f i failed refl h)
Inv-step key _ _ (load {c = c} {r = r} {g = g} {i = i} t e) (k, h) = (Cached-load c r i g t k, h)
Inv-step key _ _ (publish {c = c} {r = r} {g = g} {i = i} {t = t}) (k, h) =
    (Cached-publish c r i g t k, λ j _. refl)
Inv-step key _ _ (use_cached i now e v) (c, h) = (c, λ j _. refl)
Inv-step key _ _ (expired i now e v) (c, h) = (c, λ j _. refl)
Inv-step key _ _ (lock_refresh {c = c} {l = l} {f = f} {g = g} i e) (k, h) =
    (Cached-lock_refresh c l i g (h i (ap needs e)) k, HasToken-move c f i inside refl h)
Inv-step key _ _ (found_refreshed now v) (c, h) = (c, λ j _. refl)
Inv-step key _ _ (send now v) ((idle, next, loads), h) = ((idle, (refl, next), loads), λ j _. refl)
Inv-step key _ _ (refuse {c = c} {l = l} {f = f} {g = g} {i = i} {t = t}) (k, h) =
    (Cached-refuse c l i t g k, HasToken-move c f i failed refl h)
Inv-step key _ _ (exchange {c = c} {l = l} {g = g} {i = i} {t = t} now new) (k, h) =
    (Cached-exchange c l i t g now new k, h)
Inv-step key _ _ (save_fails {c = c} {l = l} {f = f} {g = g} {i = i} {t = t}) (k, h) =
    (Cached-lost c l i t g k, HasToken-move c f i failed refl h)
Inv-step key _ _ (save {c = c} {l = l} {g = g} {i = i} {t = t}) (k, h) =
    (Cached-save c l i t g k, h)
Inv-step key _ _ (finish {c = c} {l = l} {g = g} {i = i} {t = t}) (k, h) =
    (Cached-finish c l i t g k, λ j _. refl)

pub Reach-Inv : (key : Text) (tokens : List TokenState) (s : Auth) → Reach key tokens s → Inv s
Reach-Inv key tokens _ begin = ((refl, refl, refl), λ j e. cc)
Reach-Inv key tokens _ (later {s} {s'} r x) = Inv-step key s s' x (Reach-Inv key tokens s r)
