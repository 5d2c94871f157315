-- ===== src/Analyzer/Neighbours.antt =====
-- The names that a round of `getRelatedEntities` (src/analyzer/graph-builder.ts) pushes, and those that
-- it has not visited.
use codegen_patterns.Base.{
  ℕ, ◌*◌, ◌≤◌, ◌<◌, String, Bool, true, false, ◌&&◌, not, List, [], ◌∷◌, ◌++◌, ◌=ₛ◌, ◌≡◌, ◌⊎◌, refl,
  sym, ◌∙◌, ap, inl, inr, arith, if◌then◌else◌, length, keep, contains, In, All, All-append,
  All-weaken, Bool-cases, eq_iff,
}
use codegen_patterns.Analyzer.{RelationshipEdge, neighbours}

-- The two ends of each edge.
abbrev pub endpoints : List RelationshipEdge → List String
endpoints [] = []
endpoints (e ∷ es) = e.from ∷ e.to ∷ endpoints es

abbrev pub unvisited : List String → List String → ℕ
unvisited names visited = length (keep (λ n. not (contains n visited)) names)

unvisited-le :
    (names visited : List String) (k : String)
    → unvisited names (k ∷ visited) ≤ unvisited names visited
unvisited-le [] visited k = omega arith
unvisited-le (n ∷ names) visited k = elim (Bool-cases (n =ₛ k)) [
  | inl e ↦ elim (Bool-cases (contains n visited)) [
    | inl q ↦ rw (e, q) (unvisited-le names visited k)
    | inr q ↦ rw (e, q) (omega (arith, unvisited-le names visited k))
  ]
  | inr e ↦ elim (Bool-cases (contains n visited)) [
    | inl q ↦ rw (e, q) (unvisited-le names visited k)
    | inr q ↦ rw (e, q) (omega (arith, unvisited-le names visited k))
  ]
]

-- Visiting a name that is new leaves fewer.
pub unvisited-lt :
    (names visited : List String) (k : String)
    → In k names
    → contains k visited ≡ false
    → unvisited names (k ∷ visited) < unvisited names visited
unvisited-lt [] visited k h new = absurd h
unvisited-lt (n ∷ names) visited k (inl same) new =
    let seen : (n =ₛ k) ≡ true = (eq_iff n k).1 (sym same) in
    let fresh : contains n visited ≡ false = ap (λ x. contains x visited) (sym same) ∙ new in
    rw (seen, fresh) (omega (arith, unvisited-le names visited k))
unvisited-lt (n ∷ names) visited k (inr h) new = elim (Bool-cases (n =ₛ k)) [
  | inl e ↦ elim (Bool-cases (contains n visited)) [
    | inl q ↦ rw (e, q) (unvisited-lt names visited k h new)
    | inr q ↦ rw (e, q) (omega (arith, unvisited-lt names visited k h new))
  ]
  | inr e ↦ elim (Bool-cases (contains n visited)) [
    | inl q ↦ rw (e, q) (unvisited-lt names visited k h new)
    | inr q ↦ rw (e, q) (omega (arith, unvisited-lt names visited k h new))
  ]
]

pub neighbours-length :
    (name : String) (visited : List String) (es : List RelationshipEdge)
    → length (neighbours name visited es) ≤ 2 * length es
unfolding neighbours
neighbours-length name visited [] = omega arith
neighbours-length name visited (e ∷ es) =
    let rest = neighbours-length name visited es in
    elim (Bool-cases (e.from =ₛ name && not (contains e.to visited))) [
      | inl p ↦ elim (Bool-cases (e.to =ₛ name && not (contains e.from visited))) [
        | inl q ↦ rw (p, q) (omega (arith, rest))
        | inr q ↦ rw (p, q) (omega (arith, rest))
      ]
      | inr p ↦ elim (Bool-cases (e.to =ₛ name && not (contains e.from visited))) [
        | inl q ↦ rw (p, q) (omega (arith, rest))
        | inr q ↦ rw (p, q) (omega (arith, rest))
      ]
    ]

-- What an edge at `name` leads to.
abbrev pub Leads : RelationshipEdge → String → String → Type 0
Leads e a b = ((e.from ≡ a) × (e.to ≡ b)) ⊎ ((e.to ≡ a) × (e.from ≡ b))

abbrev pub Adjacent : List RelationshipEdge → String → String → Type 0
Adjacent es a b = (e : RelationshipEdge) × In e es × Leads e a b

Adjacent-cons :
    (e : RelationshipEdge) (es : List RelationshipEdge) (a b : String)
    → Adjacent es a b
    → Adjacent (e ∷ es) a b
Adjacent-cons e es a b (x, h, l) = (x, inr h, l)

one_if :
    (P : String → Type 0) (n : String) (b c : Bool)
    → (b ≡ true → P n)
    → All P (if b && c then n ∷ [] else [])
one_if P n false c h = tt
one_if P n true false h = tt
one_if P n true true h = (h refl, tt)

pub neighbours-Adjacent :
    (name : String) (visited : List String) (es : List RelationshipEdge)
    → All (Adjacent es name) (neighbours name visited es)
unfolding neighbours
neighbours-Adjacent name visited [] = tt
neighbours-Adjacent name visited (e ∷ es) =
    let P = Adjacent (e ∷ es) name in
    let ahead = if e.from =ₛ name && not (contains e.to visited) then e.to ∷ [] else [] in
    let back = if e.to =ₛ name && not (contains e.from visited) then e.from ∷ [] else [] in
    let rest = neighbours name visited es in
    All-append P ahead (back ++ rest)
      (one_if P e.to (e.from =ₛ name) (not (contains e.to visited))
        (λ h. (e, inl refl, inl ((eq_iff e.from name).0 h, refl))))
      (All-append P back rest
        (one_if P e.from (e.to =ₛ name) (not (contains e.from visited))
          (λ h. (e, inl refl, inr ((eq_iff e.to name).0 h, refl))))
        (All-weaken (Adjacent-cons e es name) rest (neighbours-Adjacent name visited es)))

pub In-endpoints :
    (es : List RelationshipEdge) (a b : String) → Adjacent es a b → In b (endpoints es)
In-endpoints [] a b (e, h, l) = absurd h
In-endpoints (x ∷ es) a b (e, inl same, inl (f, t)) = inr (inl (sym t ∙ ap (λ y. y.to) same))
In-endpoints (x ∷ es) a b (e, inl same, inr (t, f)) = inl (sym f ∙ ap (λ y. y.from) same)
In-endpoints (x ∷ es) a b (e, inr h, l) = inr (inr (In-endpoints es a b (e, h, l)))

pub endpoints-length : (es : List RelationshipEdge) → length (endpoints es) ≡ 2 * length es
endpoints-length [] = omega arith
endpoints-length (e ∷ es) = omega (arith, endpoints-length es)
