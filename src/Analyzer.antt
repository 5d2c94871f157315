-- ===== src/Analyzer.antt =====
-- The graph of entities (src/analyzer/graph-builder.ts) on the parts of the parsed entities that it
-- reads. `findCircularDependencies` is left out.
pub mod Neighbours
pub mod Related
pub mod Reverse
pub mod Complete
mod Examples
use codegen_patterns.Base.{
  ℕ, zero, suc, ◌+◌, ◌*◌, String, Option, none, some, Bool, true, false, ◌&&◌, ◌||◌, not, List, [],
  ◌∷◌, ◌++◌, map, ltb, ◌=ₛ◌, if◌then◌else◌, length, keep, exists, contains,
}
use codegen_patterns.Base.Dict.{Dict, get, set, values}

pub data RelationshipType : Type 0 where
  belongs_to has_many has_one : RelationshipType

pub data Cardinality : Type 0 where
  one_to_one one_to_many many_to_one many_to_many : Cardinality

pub record ParsedRelationship : Type 0 where
  pub name : String
  pub type : RelationshipType
  pub target : String
  pub foreign_key : String
  pub resolved : Bool

pub record ParsedEntity : Type 0 where
  pub name : String
  pub relationships : Dict ParsedRelationship

-- `types` has the flag `bidirectional` of each of the types.
pub record ParsedRelationshipDefinition : Type 0 where
  pub name : String
  pub from : String
  pub to : String
  pub from_column : String
  pub types : List Bool

pub record RelationshipEdge : Type 0 where
  pub from : String
  pub to : String
  pub relationship : ParsedRelationship
  pub cardinality : Cardinality
  pub bidirectional : Bool

pub record DomainGraph : Type 0 where
  pub entities : Dict ParsedEntity
  pub relationship_definitions : Dict ParsedRelationshipDefinition
  pub edges : List RelationshipEdge

unfoldable pub infer_cardinality : RelationshipType → Cardinality
infer_cardinality belongs_to = many_to_one
infer_cardinality has_many = one_to_many
infer_cardinality has_one = one_to_one

abbrev pub is_reverse : String → String → RelationshipEdge → Bool
is_reverse from to e = e.from =ₛ to && e.to =ₛ from

-- The first reverse edge is marked (`hasReverseEdge`).
unfoldable pub mark_reverse : String → String → List RelationshipEdge → List RelationshipEdge
mark_reverse from to [] = []
mark_reverse from to (e ∷ es) =
    if is_reverse from to e
    then record e { bidirectional = true } ∷ es
    else e ∷ mark_reverse from to es

-- The body of the inner loop.
unfoldable pub add_inline_edge :
    String → ParsedRelationship → List RelationshipEdge → List RelationshipEdge
unfolding infer_cardinality mark_reverse
add_inline_edge entity rel edges =
    if rel.resolved
    then mark_reverse entity rel.target edges
      ++ record {
        from = entity;
        to = rel.target;
        relationship = rel;
        cardinality = infer_cardinality rel.type;
        bidirectional = exists (is_reverse entity rel.target) edges;
      }
        ∷ []
    else edges

unfoldable pub add_inline_edges :
    String → List ParsedRelationship → List RelationshipEdge → List RelationshipEdge
unfolding add_inline_edge
add_inline_edges entity [] edges = edges
add_inline_edges entity (r ∷ rs) edges = add_inline_edges entity rs (add_inline_edge entity r edges)

unfoldable pub inline_edges : List ParsedEntity → List RelationshipEdge → List RelationshipEdge
unfolding add_inline_edges
inline_edges [] edges = edges
inline_edges (e ∷ es) edges =
    inline_edges es (add_inline_edges e.name (values e.relationships) edges)

unfoldable pub junction_edge : ParsedRelationshipDefinition → RelationshipEdge
junction_edge d = record {
  from = d.from;
  to = d.to;
  relationship = record {
    name = d.name;
    type = has_many;
    target = d.to;
    foreign_key = d.from_column;
    resolved = true;
  };
  cardinality = many_to_many;
  bidirectional = exists (λ b. b) d.types;
}

abbrev pub has_entity : String → Dict ParsedEntity → Bool
has_entity name entities = elim (get name entities) [ none ↦ false | some e ↦ true ]

unfoldable pub junction_edges :
    Dict ParsedEntity → List ParsedRelationshipDefinition → List RelationshipEdge
unfolding junction_edge
junction_edges entities defs =
    map junction_edge (keep (λ d. has_entity d.from entities && has_entity d.to entities) defs)

unfoldable pub entity_map : List ParsedEntity → Dict ParsedEntity → Dict ParsedEntity
entity_map [] m = m
entity_map (e ∷ es) m = entity_map es (set e.name e m)

unfoldable pub definition_map :
    List ParsedRelationshipDefinition
    → Dict ParsedRelationshipDefinition
    → Dict ParsedRelationshipDefinition
definition_map [] m = m
definition_map (d ∷ ds) m = definition_map ds (set d.name d m)

unfoldable pub build_domain_graph :
    List ParsedEntity → List ParsedRelationshipDefinition → DomainGraph
unfolding inline_edges junction_edges entity_map definition_map
build_domain_graph entities defs =
    let by_name = entity_map entities [] in
    record {
      entities = by_name;
      relationship_definitions = definition_map defs [];
      edges = inline_edges entities [] ++ junction_edges by_name defs;
    }

unfoldable pub find_orphan_entities : DomainGraph → List String
find_orphan_entities g =
    keep (λ name. not (exists (λ e. e.from =ₛ name || e.to =ₛ name) g.edges))
      (map (λ p. p.0) g.entities)

-- What the loop over the edges pushes for the entity `name`.
unfoldable pub neighbours : String → List String → List RelationshipEdge → List String
neighbours name visited [] = []
neighbours name visited (e ∷ es) =
    let rest = neighbours name visited es in
    (if e.from =ₛ name && not (contains e.to visited) then e.to ∷ [] else [])
    ++ ((if e.to =ₛ name && not (contains e.from visited) then e.from ∷ [] else []) ++ rest)

unfoldable pub add_all : List String → List String → List String
add_all [] related = related
add_all (n ∷ ns) related = add_all ns (if contains n related then related else related ++ n ∷ [])

-- The queue, the visited entities and the result so far.
abbrev pub Search : Type 0
Search = List (String × ℕ) × List String × List String

-- One round of the `while` loop, behind `shift`.
unfoldable pub visit : List RelationshipEdge → ℕ → String → ℕ → Search → Search
unfolding neighbours add_all
visit edges depth name current (queue, visited, related) =
    if contains name visited || ltb depth current
    then (queue, visited, related)
    else (let pushed = neighbours name (name ∷ visited) edges in
        (queue ++ map (λ n. (n, suc current)) pushed, name ∷ visited, add_all pushed related))

-- The loop on fuel; `none` where the fuel runs out.
unfoldable pub search :
    List RelationshipEdge
    → ℕ
    → ℕ
    → List (String × ℕ)
    → List String
    → List String
    → Option (List String)
unfolding visit
search edges depth zero queue visited related = none
search edges depth (suc fuel) [] visited related = some related
search edges depth (suc fuel) ((name, current) ∷ queue) visited related =
    let s = visit edges depth name current (queue, visited, related) in
    search edges depth fuel s.0 s.1 s.2

-- Each of at most `2 * e + 1` names is expanded once, and pushes at most `2 * e` names.
abbrev pub search_fuel : ℕ → ℕ
search_fuel e = 2 + 2 * e * (2 * e + 1)

unfoldable pub get_related_entities : DomainGraph → String → ℕ → Option (List String)
unfolding search
get_related_entities g name depth =
    search g.edges depth (search_fuel (length g.edges)) ((name, 0) ∷ []) [] []
