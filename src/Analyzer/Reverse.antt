-- ===== src/Analyzer/Reverse.antt =====
-- The flag `bidirectional` of the inline edges that `buildDomainGraph` makes
-- (src/analyzer/graph-builder.ts).
use codegen_patterns.Base.{
  String, Bool, true, false, ◌||◌, not, List, [], ◌∷◌, ◌++◌, ◌≡◌, refl, sym, subst, ◌∙◌, ap, inl,
  inr, arith, if◌then◌else◌, exists, All, All-append, All-weaken, Bool-cases, eq_iff,
}
use codegen_patterns.Base.Dict.{values}
use codegen_patterns.Analyzer.{
  RelationshipEdge, ParsedRelationship, ParsedEntity, infer_cardinality, is_reverse, mark_reverse,
  add_inline_edge, add_inline_edges, inline_edges,
}

abbrev has_reverse : List RelationshipEdge → RelationshipEdge → Bool
has_reverse es e = exists (is_reverse e.from e.to) es

-- An edge that is marked has an edge in the other direction.
abbrev pub IsBacked : List RelationshipEdge → RelationshipEdge → Type 0
IsBacked es e = (not e.bidirectional || has_reverse es e) ≡ true

exists-mark_reverse :
    (from to a b : String) (es : List RelationshipEdge)
    → exists (is_reverse a b) (mark_reverse from to es) ≡ exists (is_reverse a b) es
unfolding mark_reverse
exists-mark_reverse from to a b [] = refl
exists-mark_reverse from to a b (e ∷ es) = elim (Bool-cases (is_reverse from to e)) [
  | inl q ↦ rw q refl
  | inr q ↦ rw q (ap (λ x. is_reverse a b e || x) (exists-mark_reverse from to a b es))
]

exists-append :
    (a b : String) (xs ys : List RelationshipEdge)
    → exists (is_reverse a b) (xs ++ ys)
      ≡ (exists (is_reverse a b) xs || exists (is_reverse a b) ys)
exists-append a b [] ys = refl
exists-append a b (x ∷ xs) ys = ground (arith, exists-append a b xs ys)

flag_or : (b r : Bool) → (not b || (b || r)) ≡ true
flag_or true r = refl
flag_or false r = refl

module _ (from to : String) (es : List RelationshipEdge) (new : RelationshipEdge)
    (starts : new.from ≡ from) (ends : new.to ≡ to)
    (flag : new.bidirectional ≡ exists (is_reverse from to) es) where
  abbrev later : List RelationshipEdge
  later = mark_reverse from to es ++ new ∷ []

  has_reverse-later :
      (a b : String)
      → exists (is_reverse a b) later
        ≡ (exists (is_reverse a b) es || (is_reverse a b new || false))
  has_reverse-later a b =
      exists-append a b (mark_reverse from to es) (new ∷ [])
      ∙ ap (λ x. x || (is_reverse a b new || false)) (exists-mark_reverse from to a b es)

  IsBacked-later : (e : RelationshipEdge) → IsBacked es e → IsBacked later e
  IsBacked-later e h = rw (has_reverse-later e.from e.to) (ground (arith, h))

  marked-IsBacked :
      (e : RelationshipEdge)
      → is_reverse from to e ≡ true
      → IsBacked later (record e { bidirectional = true })
  marked-IsBacked e h =
      let back : is_reverse e.from e.to new ≡ true = ground (
        arith,
        h,
        starts,
        ends,
        eq_iff e.from to,
        eq_iff e.to from,
        eq_iff new.from e.to,
        eq_iff new.to e.from,
      ) in
      rw (has_reverse-later e.from e.to, back) (ground arith)

  mark_reverse-IsBacked :
      (xs : List RelationshipEdge)
      → All (IsBacked es) xs
      → All (IsBacked later) (mark_reverse from to xs)
  unfolding mark_reverse
  mark_reverse-IsBacked [] h = tt
  mark_reverse-IsBacked (x ∷ xs) (h, hs) = elim (Bool-cases (is_reverse from to x)) [
    | inl q ↦ rw q (marked-IsBacked x q, All-weaken IsBacked-later xs hs)
    | inr q ↦ rw q (IsBacked-later x h, mark_reverse-IsBacked xs hs)
  ]

  new-IsBacked : IsBacked later new
  new-IsBacked =
      let same : exists (is_reverse new.from new.to) es ≡ new.bidirectional =
        ap (λ a. exists (is_reverse a new.to) es) starts
        ∙ ap (λ b. exists (is_reverse from b) es) ends
        ∙ sym flag in
      let r = is_reverse new.from new.to new || false in
      ap (λ x. not new.bidirectional || x)
        (has_reverse-later new.from new.to ∙ ap (λ b. b || r) same)
      ∙ flag_or new.bidirectional r

abbrev pub AllBacked : List RelationshipEdge → Type 0
AllBacked es = All (IsBacked es) es

add_inline_edge-AllBacked :
    (entity : String) (rel : ParsedRelationship) (es : List RelationshipEdge)
    → AllBacked es
    → AllBacked (add_inline_edge entity rel es)
unfolding add_inline_edge
add_inline_edge-AllBacked entity rel es h = elim (Bool-cases rel.resolved) [
  | inl e ↦
      let new : RelationshipEdge = record {
        from = entity;
        to = rel.target;
        relationship = rel;
        cardinality = infer_cardinality rel.type;
        bidirectional = exists (is_reverse entity rel.target) es;
      } in
      subst (λ b. AllBacked (if b then mark_reverse entity rel.target es ++ new ∷ [] else es))
        (sym e)
        (All-append (IsBacked (mark_reverse entity rel.target es ++ new ∷ []))
          (mark_reverse entity rel.target es) (new ∷ [])
          (mark_reverse-IsBacked entity rel.target es new refl refl refl es h)
          (new-IsBacked entity rel.target es new refl refl refl, tt))
  | inr e ↦ rw e h
]

add_inline_edges-AllBacked :
    (entity : String) (rels : List ParsedRelationship) (es : List RelationshipEdge)
    → AllBacked es
    → AllBacked (add_inline_edges entity rels es)
unfolding add_inline_edges
add_inline_edges-AllBacked entity [] es h = h
add_inline_edges-AllBacked entity (r ∷ rs) es h =
    add_inline_edges-AllBacked entity rs (add_inline_edge entity r es)
      (add_inline_edge-AllBacked entity r es h)

inline_edges-AllBacked :
    (entities : List ParsedEntity) (es : List RelationshipEdge)
    → AllBacked es
    → AllBacked (inline_edges entities es)
unfolding inline_edges
inline_edges-AllBacked [] es h = h
inline_edges-AllBacked (e ∷ rest) es h =
    inline_edges-AllBacked rest (add_inline_edges e.name (values e.relationships) es)
      (add_inline_edges-AllBacked e.name (values e.relationships) es h)

-- Among the edges from the relationships of entities, each one that is marked as bidirectional has an
-- edge in the other direction.
pub inline_edges-IsBacked : (entities : List ParsedEntity) → AllBacked (inline_edges entities [])
inline_edges-IsBacked entities = inline_edges-AllBacked entities [] tt
