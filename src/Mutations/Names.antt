-- ===== src/Mutations/Names.antt =====
-- The name of a custom mutation, "entity|operation".
use openfaith.Common.{◌≡◌, refl, [], ◌∷◌, ◌++◌, Text}
use openfaith.Relations.Keys.{NoBar}
use openfaith.Mutations.{split_bar}

pub split_bar_whole : (s : Text) → NoBar s → split_bar s ≡ s ∷ []
unfolding split_bar
split_bar_whole [] h = refl
split_bar_whole (c ∷ s) (n, h) = rw (n, split_bar_whole s h) refl

-- A name of two parts without a bar splits into them.
pub split_bar-join : (a b : Text) → NoBar a → NoBar b → split_bar (a ++ b'|' ∷ b) ≡ a ∷ b ∷ []
unfolding split_bar
split_bar-join [] b h k = rw (split_bar_whole b k) refl
split_bar-join (c ∷ a) b (n, h) k = rw (n, split_bar-join a b h k) refl
