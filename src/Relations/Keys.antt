-- ===== src/Relations/Keys.antt =====
-- Deduplication, and the keys of pairs of type names.
use openfaith.Common.{
  false, not, ◌&&◌, ◌≡◌, refl, inl, inr, List, [], ◌∷◌, arith, Bool-cases, All, ◌==◌, Text, ◌===◌,
  ===_iff,
}
use openfaith.Relations.{contains, remove, dedupe, pair_key, first_part, after_bar, pair_of_key}

contains-remove :
    (t x : Text) (ts : List Text) → contains t (remove x ts) ≡ (not (x === t) && contains t ts)
contains-remove t x [] = ground arith
contains-remove t x (y ∷ ts) =
    ground (arith, contains-remove t x ts, ===_iff y x, ===_iff y t, ===_iff x t)

pub contains-dedupe : (t : Text) (ts : List Text) → contains t (dedupe ts) ≡ contains t ts
unfolding dedupe
contains-dedupe t [] = refl
contains-dedupe t (x ∷ ts) =
    rw (contains-remove t x (dedupe ts), contains-dedupe t ts) (ground arith)

All-remove {κ} : (P : Text → Type κ) (x : Text) (ts : List Text) → All P ts → All P (remove x ts)
All-remove P x [] h = tt
All-remove P x (t ∷ ts) (p, h) = elim (Bool-cases (t === x)) [
  | inl e ↦ rw e (All-remove P x ts h)
  | inr e ↦ rw e (p, All-remove P x ts h)
]

pub All-dedupe {κ} : (P : Text → Type κ) (ts : List Text) → All P ts → All P (dedupe ts)
unfolding dedupe
All-dedupe P [] h = tt
All-dedupe P (t ∷ ts) (p, h) = (p, All-remove P t (dedupe ts) (All-dedupe P ts h))

-- A type name without the separator.
abbrev pub NoBar : Text → Type 0
NoBar t = All (λ c. (c == b'|') ≡ false) t

pub first_part-pair_key : (s t : Text) → NoBar s → first_part (pair_key s t) ≡ s
unfolding first_part pair_key
first_part-pair_key [] t h = refl
first_part-pair_key (c ∷ s) t (n, h) = rw (n, first_part-pair_key s t h)

pub after_bar-pair_key : (s t : Text) → NoBar s → after_bar (pair_key s t) ≡ t
unfolding after_bar pair_key
after_bar-pair_key [] t h = refl
after_bar-pair_key (c ∷ s) t (n, h) = rw (n, after_bar-pair_key s t h)

pub first_part_whole : (t : Text) → NoBar t → first_part t ≡ t
unfolding first_part
first_part_whole [] h = refl
first_part_whole (c ∷ t) (n, h) = rw (n, first_part_whole t h)

-- Splitting the key of a pair gives the pair back, if no name has a "|".
pub pair_of_key-pair_key : (s t : Text) → NoBar s → NoBar t → pair_of_key (pair_key s t) ≡ (s, t)
pair_of_key-pair_key s t h k =
    rw (first_part-pair_key s t h, after_bar-pair_key s t h, first_part_whole t k)
