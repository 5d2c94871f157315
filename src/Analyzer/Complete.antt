-- ===== src/Analyzer/Complete.antt =====
-- What `getRelatedEntities` (src/analyzer/graph-builder.ts) does not miss.
use codegen_patterns.Base.{
  ◌≤◌, ℕ, zero, suc, ◌+◌, ◌*◌, String, some, true, false, ◌&&◌, ◌||◌, not, List, [], ◌∷◌, ◌++◌, ltb,
  ◌=ₛ◌, ◌≡◌, refl, sym, subst, ◌∙◌, ap, inl, inr, arith, if◌then◌else◌, length, contains, In,
  In-append_left, In-append_last, contains-In, Bool-cases, eq_iff, some-eq,
}
use codegen_patterns.Analyzer.{
  RelationshipEdge, DomainGraph, neighbours, add_all, visit, search, search_fuel,
  get_related_entities,
}
use codegen_patterns.Analyzer.Neighbours.{Adjacent}
use codegen_patterns.Analyzer.Related.{get_related_entities_lem}

In-append_right : (a : String) (xs ys : List String) → In a ys → In a (xs ++ ys)
In-append_right a [] ys h = h
In-append_right a (x ∷ xs) ys h = inr (In-append_right a xs ys h)

add_all-keeps : (b : String) (ns related : List String) → In b related → In b (add_all ns related)
unfolding add_all
add_all-keeps b [] related h = h
add_all-keeps b (n ∷ ns) related h = elim (Bool-cases (contains n related)) [
  | inl e ↦ rw e (add_all-keeps b ns related h)
  | inr e ↦ rw e (add_all-keeps b ns (related ++ n ∷ []) (In-append_left b related (n ∷ []) h))
]

add_all-adds : (b : String) (ns related : List String) → In b ns → In b (add_all ns related)
unfolding add_all
add_all-adds b [] related h = absurd h
add_all-adds b (n ∷ ns) related (inr h) =
    add_all-adds b ns (if contains n related then related else related ++ n ∷ []) h
add_all-adds b (n ∷ ns) related (inl same) = elim (Bool-cases (contains n related)) [
  | inl e ↦
      rw e (
        add_all-keeps b ns related (subst (λ x. In x related) (sym same) (contains-In n related e)))
  | inr e ↦ rw e (
      add_all-keeps b ns (related ++ n ∷ [])
        (subst (λ x. In x (related ++ n ∷ [])) (sym same) (In-append_last n related)))
]

-- The names that one edge contributes.
abbrev ahead : String → List String → RelationshipEdge → List String
ahead name visited e = if e.from =ₛ name && not (contains e.to visited) then e.to ∷ [] else []

abbrev back : String → List String → RelationshipEdge → List String
back name visited e = if e.to =ₛ name && not (contains e.from visited) then e.from ∷ [] else []

neighbours-In :
    (name b : String) (visited : List String) (es : List RelationshipEdge)
    → Adjacent es name b
    → contains b visited ≡ false
    → In b (neighbours name visited es)
unfolding neighbours
neighbours-In name b visited [] (e, h, l) new = absurd h
neighbours-In name b visited (x ∷ es) (e, inr h, l) new =
    let rest = neighbours name visited es in
    In-append_right b (ahead name visited x) (back name visited x ++ rest)
      (In-append_right b (back name visited x) rest (neighbours-In name b visited es (e, h, l) new))
neighbours-In name b visited (x ∷ es) (e, inl same, inl (starts, ends)) new =
    let here : (x.from =ₛ name) ≡ true =
      (eq_iff x.from name).1 (sym (ap (λ y. y.from) same) ∙ starts) in
    let to : x.to ≡ b = sym (ap (λ y. y.to) same) ∙ ends in
    let fresh : contains x.to visited ≡ false = ap (λ k. contains k visited) to ∙ new in
    rw (here, fresh) (inl (sym to))
neighbours-In name b visited (x ∷ es) (e, inl same, inr (ends, starts)) new =
    let here : (x.to =ₛ name) ≡ true = (eq_iff x.to name).1 (sym (ap (λ y. y.to) same) ∙ ends) in
    let from : x.from ≡ b = sym (ap (λ y. y.from) same) ∙ starts in
    let fresh : contains x.from visited ≡ false = ap (λ k. contains k visited) from ∙ new in
    In-append_right b (ahead name visited x) (back name visited x ++ neighbours name visited es)
      (rw (here, fresh) (inl (sym from)))

module _ (es : List RelationshipEdge) (depth : ℕ) where
  visit-keeps :
      (b name : String) (current : ℕ) (queue : List (String × ℕ)) (visited related : List String)
      → In b related
      → In b (visit es depth name current (queue, visited, related)).2
  unfolding visit
  visit-keeps b name current queue visited related h =
      elim (Bool-cases (contains name visited || ltb depth current)) [
        | inl e ↦ rw e h
        | inr e ↦ rw e (add_all-keeps b (neighbours name (name ∷ visited) es) related h)
      ]

  search-keeps :
      (b : String) (fuel : ℕ) (queue : List (String × ℕ)) (visited related rs : List String)
      → In b related
      → search es depth fuel queue visited related ≡ some rs
      → In b rs
  unfolding search
  search-keeps b zero queue visited related rs h e = cc
  search-keeps b (suc fuel) [] visited related rs h e = subst (λ x. In b x) (some-eq e) h
  search-keeps b (suc fuel) ((name, current) ∷ queue) visited related rs h e =
      let s = visit es depth name current (queue, visited, related) in
      search-keeps b fuel s.0 s.1 s.2 rs (visit-keeps b name current queue visited related h) e

  first_visit :
      (name b : String)
      → Adjacent es name b
      → (b =ₛ name) ≡ false
      → In b (visit es depth name 0 ([], [], [])).2
  unfolding visit
  first_visit name b adj other = rw (not-below depth) (
      add_all-adds b (neighbours name (name ∷ []) es) []
        (neighbours-In name b (name ∷ []) es adj (rw other refl)))
    where
      not-below : (n : ℕ) → ltb n 0 ≡ false
      not-below n = ground arith

-- With a depth of one or more, the search finds each entity that an edge joins to the given one, in
-- either direction, the given one itself left out.
pub get_related_entities_neighbours :
    (g : DomainGraph) (name b : String) (depth : ℕ)
    → Adjacent g.edges name b
    → (b =ₛ name) ≡ false
    → 1 ≤ depth
    → (rs : List String) × (get_related_entities g name depth ≡ some rs) × In b rs
unfolding get_related_entities search
get_related_entities_neighbours g name b depth adj other pos =
    let (rs, ends, within) = get_related_entities_lem g name depth in
    let s = visit g.edges depth name 0 ([], [], []) in
    let rest = 1 + 2 * length g.edges * (2 * length g.edges + 1) in
    let one_more : search_fuel (length g.edges) ≡ suc rest = omega arith in
    (
      rs,
      ends,
      search-keeps g.edges depth b rest s.0 s.1 s.2 rs (first_visit g.edges depth name b adj other)
          (subst (λ f. search g.edges depth f ((name, 0) ∷ []) [] [] ≡ some rs) one_more ends),
    )
