-- ===== src/Analyzer/Related.antt =====
-- `getRelatedEntities` (src/analyzer/graph-builder.ts): the loop ends, and what it finds is connected.
use codegen_patterns.Base.{
  ℕ, zero, suc, ◌+◌, ◌*◌, ◌≤◌, ◌<◌, String, some, Bool, true, false, ◌||◌, List, [], ◌∷◌, ◌++◌, map,
  ltb, ◌≡◌, refl, sym, subst, ◌∙◌, ap, inl, inr, arith, length, contains, In, All, All-append,
  All-weaken, length-append, Bool-cases,
}
use codegen_patterns.Analyzer.{
  RelationshipEdge, DomainGraph, neighbours, add_all, Search, visit, search, search_fuel,
  get_related_entities,
}
use native.Mathlib.Nat.{mul-suc, mul-le-mul_left}
use codegen_patterns.Analyzer.Neighbours.{
  endpoints, Adjacent, unvisited, unvisited-lt, neighbours-length, neighbours-Adjacent,
  In-endpoints, endpoints-length,
}

not-deeper :
    (b : Bool) (current depth : ℕ) → (b || ltb depth current) ≡ false → suc current ≤ suc depth
not-deeper b current depth h = ground arith

left_false : (b c : Bool) → (b || c) ≡ false → b ≡ false
left_false true c h = cc
left_false false c h = refl

-- A walk along edges, in either direction.
pub data Walk (es : List RelationshipEdge) (a : String) : String → ℕ → Type 0 where
  stay : Walk es a a 0
  go : {b : String} {n : ℕ} (c : String) → Walk es a b n → Adjacent es b c → Walk es a c (suc n)

-- An entity at a distance of at most `n`.
abbrev pub Within : List RelationshipEdge → String → ℕ → String → Type 0
Within es a n b = (m : ℕ) × Walk es a b m × (m ≤ n)

add_all-All :
    (P : String → Type 0) (ns related : List String)
    → All P ns
    → All P related
    → All P (add_all ns related)
unfolding add_all
add_all-All P [] related h k = k
add_all-All P (n ∷ ns) related (p, h) k = elim (Bool-cases (contains n related)) [
  | inl e ↦ rw e (add_all-All P ns related h k)
  | inr e ↦ rw e (add_all-All P ns (related ++ n ∷ []) h (All-append P related (n ∷ []) k (p, tt)))
]

All-map :
    {A B : Type 0} (P : B → Type 0) (f : A → B) (xs : List A)
    → All (λ x. P (f x)) xs
    → All P (map f xs)
All-map P f [] h = tt
All-map P f (x ∷ xs) (p, h) = (p, All-map P f xs h)

length-map : {A B : Type 0} (f : A → B) (xs : List A) → length (map f xs) ≡ length xs
length-map f [] = refl
length-map f (x ∷ xs) = ap suc (length-map f xs)

module _ (es : List RelationshipEdge) (start : String) (depth : ℕ) where
  abbrev names : List String
  names = start ∷ endpoints es

  abbrev Queued : String × ℕ → Type 0
  Queued p = In p.0 names × Walk es start p.0 p.1

  abbrev potential : List (String × ℕ) → List String → ℕ
  potential queue visited = length queue + 2 * length es * unvisited names visited

  -- What holds of the search at the head of the loop.
  record IsSound (s : Search) : Type 0 where
    pub queued : All Queued s.0
    pub found : All (Within es start (suc depth)) s.2

  pushed-Queued :
      (name : String) (current : ℕ) (n : String)
      → Walk es start name current
      → Adjacent es name n
      → Queued (n, suc current)
  pushed-Queued name current n w adj = (inr (In-endpoints es name n adj), go n w adj)

  visit-IsSound :
      (name : String) (current : ℕ) (queue : List (String × ℕ)) (visited related : List String)
      → IsSound ((name, current) ∷ queue, visited, related)
      → IsSound (visit es depth name current (queue, visited, related))
  unfolding visit
  visit-IsSound name current queue visited related h =
      elim (Bool-cases (contains name visited || ltb depth current)) [
        | inl e ↦ rw e (record { queued = h.queued.1; found = h.found })
        | inr e ↦
            let pushed = neighbours name (name ∷ visited) es in
            let adj = neighbours-Adjacent name (name ∷ visited) es in
            rw e (record {
              queued = All-append Queued queue (map (λ n. (n, suc current)) pushed) h.queued.1 (
                  All-map Queued (λ n. (n, suc current)) pushed
                    (All-weaken (λ n a. pushed-Queued name current n h.queued.0.1 a) pushed adj));
              found =
                  add_all-All (Within es start (suc depth)) pushed related
                    (All-weaken
                      (λ n a. (
                        suc current,
                        go n h.queued.0.1 a,
                        not-deeper (contains name visited) current depth e,
                      ))
                      pushed adj)
                    h.found;
            })
      ]

  visit-skip :
      (name : String) (current : ℕ) (queue : List (String × ℕ)) (visited related : List String)
      → (contains name visited || ltb depth current) ≡ true
      → visit es depth name current (queue, visited, related) ≡ (queue, visited, related)
  unfolding visit
  visit-skip name current queue visited related e = rw e refl

  abbrev expanded : String → ℕ → List (String × ℕ) → List String → List String → Search
  expanded name current queue visited related =
      (let pushed = neighbours name (name ∷ visited) es in
        (queue ++ map (λ n. (n, suc current)) pushed, name ∷ visited, add_all pushed related))

  visit-expand :
      (name : String) (current : ℕ) (queue : List (String × ℕ)) (visited related : List String)
      → (contains name visited || ltb depth current) ≡ false
      → visit es depth name current (queue, visited, related)
        ≡ expanded name current queue visited related
  unfolding visit
  visit-expand name current queue visited related e = rw e refl

  expanded-potential : (w u u' q p : ℕ) → u' < u → p ≤ w → suc (q + p + w * u') ≤ suc q + w * u
  expanded-potential w u u' q p less few = omega (arith, mul-le-mul_left w less, few, mul-suc w u')

  visit-potential :
      (name : String) (current : ℕ) (queue : List (String × ℕ)) (visited related : List String)
      → In name names
      → let s = visit es depth name current (queue, visited, related) in
        suc (potential s.0 s.1) ≤ potential ((name, current) ∷ queue) visited
  visit-potential name current queue visited related known =
      elim (Bool-cases (contains name visited || ltb depth current)) [
        | inl e ↦
            subst (λ s. suc (potential s.0 s.1) ≤ potential ((name, current) ∷ queue) visited)
              (sym (visit-skip name current queue visited related e)) (omega arith)
        | inr e ↦
            let pushed = neighbours name (name ∷ visited) es in
            let less =
              unvisited-lt names visited name known
                (left_false (contains name visited) (ltb depth current) e) in
            let more : length (queue ++ map (λ n. (n, suc current)) pushed)
                ≡ length queue + length pushed =
              length-append queue (map (λ n. (n, suc current)) pushed)
              ∙ ap (λ k. length queue + k) (length-map (λ n. (n, suc current)) pushed) in
            subst (λ s. suc (potential s.0 s.1) ≤ potential ((name, current) ∷ queue) visited)
              (sym (visit-expand name current queue visited related e))
              (subst
                (λ k.
                  suc (k + 2 * length es * unvisited names (name ∷ visited))
                  ≤ potential ((name, current) ∷ queue) visited)
                (sym more)
                (expanded-potential (2 * length es) (unvisited names visited)
                  (unvisited names (name ∷ visited)) (length queue) (length pushed) less
                  (neighbours-length name (name ∷ visited) es)))
      ]

  search-found :
      (fuel : ℕ) (queue : List (String × ℕ)) (visited related : List String)
      → IsSound (queue, visited, related)
      → potential queue visited < fuel
      → (rs : List String) × (search es depth fuel queue visited related ≡ some rs)
        × All (Within es start (suc depth)) rs
  unfolding search
  search-found zero queue visited related h lt = absurd (omega arith)
  search-found (suc fuel) [] visited related h lt = (related, refl, h.found)
  search-found (suc fuel) ((name, current) ∷ queue) visited related h lt =
      let s = visit es depth name current (queue, visited, related) in
      let smaller = visit-potential name current queue visited related h.queued.0.0 in
      search-found fuel s.0 s.1 s.2 (visit-IsSound name current queue visited related h)
        (omega (arith, smaller, lt))

  unvisited_start : (ns : List String) → unvisited ns [] ≤ length ns
  unvisited_start [] = omega arith
  unvisited_start (n ∷ ns) = omega (arith, unvisited_start ns)

  start_fits : potential ((start, 0) ∷ []) [] < search_fuel (length es)
  start_fits =
      let all = unvisited_start names in
      let count = endpoints-length es in
      let bound : unvisited names [] ≤ 2 * length es + 1 = omega (arith, all, count) in
      omega (arith, mul-le-mul_left (2 * length es) bound)

-- The search ends: its fuel is enough for every graph, also with cycles. Each entity that it finds is
-- joined to the given one by a walk of at most `depth + 1` edges.
pub get_related_entities_lem :
    (g : DomainGraph) (name : String) (depth : ℕ)
    → (rs : List String) × (get_related_entities g name depth ≡ some rs)
      × All (Within g.edges name (suc depth)) rs
unfolding get_related_entities
get_related_entities_lem g name depth =
    search-found g.edges name depth (search_fuel (length g.edges)) ((name, 0) ∷ []) [] []
      (record { queued = ((inl refl, stay), tt); found = tt }) (start_fits g.edges name depth)
