-- ===== src/Tests/Graph.antt =====
-- The theorems on edges and relationships, on the example data.
use openfaith.Common.{◌≡◌, refl, List, [], ◌∷◌, ◌||◌, Text}
use openfaith.EdgeDirection.{EdgeDirection}
use openfaith.Relations.{RelationshipTypes, expand_bidirectional_pairs}
use openfaith.Relations.Expansion.{has_pair, declares, has_pair-expand}

abbrev no_text : Text
no_text = []

abbrev z_text : Text
z_text = b'z' ∷ []

abbrev direction : EdgeDirection
direction = record { source = b'a' ∷ []; target = b'z' ∷ [] }

abbrev kept_first : EdgeDirection
kept_first = record { source = b'a' ∷ []; target = b'c' ∷ [] }

abbrev rels : List RelationshipTypes
rels =
    record { source_entity_type_tag = b'p' ∷ []; target_entity_type_tags = (b'g' ∷ []) ∷ [] } ∷ []

has_pair-expand_example :
    has_pair (b'g' ∷ []) (b'p' ∷ []) (expand_bidirectional_pairs rels)
    ≡ (declares (b'g' ∷ []) (b'p' ∷ []) rels || declares (b'p' ∷ []) (b'g' ∷ []) rels)
has_pair-expand_example =
    has_pair-expand rels (b'g' ∷ []) (b'p' ∷ []) (((refl, tt), ((refl, tt), tt)), tt) (refl, tt)
      (refl, tt)

abbrev pairs : List (Text × Text)
pairs = (b'p' ∷ [], b'g' ∷ []) ∷ (b'g' ∷ [], b'p' ∷ []) ∷ (b'p' ∷ [], b'a' ∷ []) ∷ []
