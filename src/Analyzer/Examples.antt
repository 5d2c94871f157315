-- ===== src/Analyzer/Examples.antt =====
-- The search in a graph with a cycle.
use codegen_patterns.Base.{arith, String, some, true, List, [], ◌∷◌, ◌≡◌, refl, inl, inr, In, All}
use codegen_patterns.Analyzer.{
  ParsedEntity, ParsedRelationship, belongs_to, DomainGraph, inline_edges, build_domain_graph,
  get_related_entities,
}
use codegen_patterns.Analyzer.Related.{Within, get_related_entities_lem}
use codegen_patterns.Analyzer.Complete.{get_related_entities_neighbours}
use codegen_patterns.Analyzer.Reverse.{AllBacked, inline_edges-IsBacked}

abbrev owner : String → ParsedRelationship
owner target = record {
  name = target;
  type = belongs_to;
  target = target;
  foreign_key = "owner_id";
  resolved = true;
}

abbrev entity : String → String → ParsedEntity
entity name target = record { name = name; relationships = (target, owner target) ∷ [] }

abbrev ring : DomainGraph
ring =
    build_domain_graph (entity "a" "b" ∷ entity "b" "c" ∷ entity "c" "d" ∷ entity "d" "a" ∷ []) []

-- With the default depth the entity at distance 2 is found, too.
ring_found : get_related_entities ring "a" 1 ≡ some ("b" ∷ "d" ∷ "c" ∷ [])
unfolding get_related_entities build_domain_graph
ring_found = refl

get_related_entities_lem_example :
    (rs : List String) × (get_related_entities ring "a" 1 ≡ some rs)
    × All (Within ring.edges "a" 2) rs
get_related_entities_lem_example = get_related_entities_lem ring "a" 1

inline_edges-IsBacked_example : AllBacked (inline_edges (entity "a" "b" ∷ entity "b" "a" ∷ []) [])
inline_edges-IsBacked_example = inline_edges-IsBacked (entity "a" "b" ∷ entity "b" "a" ∷ [])

-- An edge of the ring that ends at "a".
get_related_entities_neighbours_example :
    (rs : List String) × (get_related_entities ring "a" 1 ≡ some rs) × In "d" rs
unfolding build_domain_graph
get_related_entities_neighbours_example =
    get_related_entities_neighbours ring "a" "d" 1 (_, inr (inr (inr (inl refl))), inr (refl, refl))
      refl (omega arith)
