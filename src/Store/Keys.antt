-- ===== src/Store/Keys.antt =====
-- The primary keys of the tables.
use openfaith.Common.{Bool, true, ◌&&◌, ◌≡◌, ◌↔◌, arith, Text, ◌===◌, ===_iff}
use openfaith.Store.{ExternalLink, Edge, Entity}

abbrev pub LinkKey : Type 0
LinkKey = Text × Text × Text

-- `externalLinkPk`
abbrev pub link_key : ExternalLink → LinkKey
link_key l = (l.org_id, l.adapter, l.external_id)

unfoldable pub same_link_key : LinkKey → LinkKey → Bool
same_link_key (o, a, x) (o', a', x') = o === o' && a === a' && x === x'

pub same_link_key_iff : (a b : LinkKey) → (same_link_key a b ≡ true) ↔ (a ≡ b)
unfolding same_link_key
same_link_key_iff (o, a, x) (o', a', x') = ground (arith, ===_iff o o', ===_iff a a', ===_iff x x')

abbrev pub EdgeKey : Type 0
EdgeKey = Text × Text × Text × Text

-- `edgePk`
abbrev pub edge_key : Edge → EdgeKey
edge_key e = (e.org_id, e.source_entity_id, e.target_entity_id, e.relationship_type)

unfoldable pub same_edge_key : EdgeKey → EdgeKey → Bool
same_edge_key (o, s, t, r) (o', s', t', r') = o === o' && s === s' && t === t' && r === r'

pub same_edge_key_iff : (a b : EdgeKey) → (same_edge_key a b ≡ true) ↔ (a ≡ b)
unfolding same_edge_key
same_edge_key_iff (o, s, t, r) (o', s', t', r') =
    ground (arith, ===_iff o o', ===_iff s s', ===_iff t t', ===_iff r r')

-- An entity is found in its table by its id.
abbrev pub EntityKey : Type 0
EntityKey = Text × Text

abbrev pub entity_key : Entity → EntityKey
entity_key e = (e.table, e.id)

unfoldable pub same_entity_key : EntityKey → EntityKey → Bool
same_entity_key (t, i) (t', i') = t === t' && i === i'

pub same_entity_key_iff : (a b : EntityKey) → (same_entity_key a b ≡ true) ↔ (a ≡ b)
unfolding same_entity_key
same_entity_key_iff (t, i) (t', i') = ground (arith, ===_iff t t', ===_iff i i')
