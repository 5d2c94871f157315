-- ===== src/Cache/Prefix.antt =====
-- `invalidateByPrefix` of `MemoryCacheService` (cache/cache.memory-backend.ts) beside the map of the
-- specification.
use codegen_patterns.Base.{
  ℕ, String, Option, none, some, Bool, true, false, ◌&&◌, List, [], ◌∷◌, map, ◌=ₛ◌, ◌≡◌, refl, sym,
  subst, ◌∙◌, ap, inl, inr, arith, if◌then◌else◌, Bool-cases, Option-cases, contains, eq_iff,
}
use codegen_patterns.Base.Dict.{Dict, get, get-remove}
use codegen_patterns.Cache.{
  CacheRecord, Cache, clear_timer, evict, evict_prefix, invalidate_by_prefix,
}
use text.Mathlib.Text.{starts_with}
use codegen_patterns.Cache.Refines.{Entries, live, drop_prefix, Timed, Agrees, evict-Timed}

module _ (V : Type 0) where
  abbrev keys_of : Dict (CacheRecord V) → List String
  keys_of m = map (λ p. p.0) m

  contains-keys_of :
      (k : String) (r : CacheRecord V) (m : Dict (CacheRecord V))
      → get k m ≡ some r
      → contains k (keys_of m) ≡ true
  unfolding get
  contains-keys_of k r [] h = cc
  contains-keys_of k r ((j, x) ∷ m) h = elim (Bool-cases (j =ₛ k)) [
    | inl e ↦ ground (arith, eq_iff j k, eq_iff k j)
    | inr e ↦ ground (arith, eq_iff j k, eq_iff k j, contains-keys_of k r m (rw e at h))
  ]

  text_eq_sym : (a b : String) → (a =ₛ b) ≡ (b =ₛ a)
  text_eq_sym a b = ground (arith, eq_iff a b, eq_iff b a)

  and_false : (b : Bool) → (b && false) ≡ false
  and_false true = refl
  and_false false = refl

  live-dropped :
      (t : ℕ) (b : Bool) (o : Option (CacheRecord V))
      → o ≡ none
      → live V t (if b then none else o) ≡ none
  live-dropped t true o h = refl
  live-dropped t false o h = ap (live V t) h

  abbrev evict_if : String → String → Cache V → Cache V
  evict_if prefix k c = if starts_with k prefix then evict V k c else c

  evict_if-Timed : (prefix k : String) (c : Cache V) → Timed V c → Timed V (evict_if prefix k c)
  evict_if-Timed prefix k c h = elim (Bool-cases (starts_with k prefix)) [
    | inl e ↦ rw e (evict-Timed V k c h)
    | inr e ↦ rw e h
  ]

  evict_prefix-Timed :
      (prefix : String) (ks : List String) (c : Cache V)
      → Timed V c
      → Timed V (evict_prefix V prefix ks c).0
  unfolding evict_prefix
  evict_prefix-Timed prefix [] c h = h
  evict_prefix-Timed prefix (k ∷ ks) c h =
      evict_prefix-Timed prefix ks (evict_if prefix k c) (evict_if-Timed prefix k c h)

  evict_if-default :
      (prefix k : String) (c : Cache V) → (evict_if prefix k c).default_ttl ≡ c.default_ttl
  unfolding evict clear_timer
  evict_if-default prefix k c = elim (Bool-cases (starts_with k prefix)) [
    | inl e ↦ rw e refl
    | inr e ↦ rw e refl
  ]

  evict_prefix-default :
      (prefix : String) (ks : List String) (c : Cache V)
      → (evict_prefix V prefix ks c).0.default_ttl ≡ c.default_ttl
  unfolding evict_prefix
  evict_prefix-default prefix [] c = refl
  evict_prefix-default prefix (k ∷ ks) c =
      evict_prefix-default prefix ks (evict_if prefix k c) ∙ evict_if-default prefix k c

  and_same :
      (prefix j k : String) → (starts_with k prefix && k =ₛ j) ≡ (starts_with j prefix && j =ₛ k)
  and_same prefix j k = elim (Bool-cases (j =ₛ k)) [
    | inl e ↦
        subst (λ x. (starts_with x prefix && x =ₛ j) ≡ (starts_with j prefix && j =ₛ x))
          ((eq_iff j k).0 e) refl
    | inr e ↦
        rw (text_eq_sym k j, e)
          (and_false (starts_with k prefix) ∙ sym (and_false (starts_with j prefix)))
  ]

  get-evict_if :
      (prefix j k : String) (c : Cache V)
      → get k (evict_if prefix j c).store
        ≡ (if starts_with k prefix && k =ₛ j then none else get k c.store)
  unfolding evict clear_timer
  get-evict_if prefix j k c = elim (Bool-cases (starts_with j prefix)) [
    | inl q ↦ rw (and_same prefix j k, q) (get-remove k j c.store)
    | inr q ↦ rw (and_same prefix j k, q) refl
  ]

  get-evict_prefix :
      (prefix k : String) (ks : List String) (c : Cache V)
      → get k (evict_prefix V prefix ks c).0.store
        ≡ (if starts_with k prefix && contains k ks then none else get k c.store)
  unfolding evict_prefix
  get-evict_prefix prefix k [] c = ground arith
  get-evict_prefix prefix k (j ∷ ks) c =
      ground (arith, get-evict_prefix prefix k ks (evict_if prefix j c), get-evict_if prefix j k c)

  pub invalidate-Agrees :
      (d : Option ℕ) (prefix : String) (now : ℕ) (c : Cache V) (f : Entries V)
      → Agrees V d now c f
      → Agrees V d now (invalidate_by_prefix V prefix c).0 (drop_prefix V prefix f)
  unfolding invalidate_by_prefix
  invalidate-Agrees d prefix now c f h = record {
    same = λ k t le. elim (Bool-cases (starts_with k prefix)) [
      | inl e ↦ elim (Option-cases (get k c.store)) [
        | inl q ↦
            rw (get-evict_prefix prefix k (keys_of c.store) c, e)
              (live-dropped t (contains k (keys_of c.store)) (get k c.store) q)
        | inr (r, q) ↦
            rw (get-evict_prefix prefix k (keys_of c.store) c, e, contains-keys_of k r c.store q)
              refl
      ]
      | inr e ↦ rw (get-evict_prefix prefix k (keys_of c.store) c, e) (h.same k t le)
    ];
    timed = evict_prefix-Timed prefix (keys_of c.store) c h.timed;
    default = evict_prefix-default prefix (keys_of c.store) c ∙ h.default;
  }
