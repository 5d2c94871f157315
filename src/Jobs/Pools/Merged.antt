-- ===== src/Jobs/Pools/Merged.antt =====
-- What a loaded pool configuration (jobs/pool-config.loader.ts) guarantees.
use codegen_patterns.Base.{
  ℕ, String, Option, none, some, false, List, [], ◌∷◌, ◌==◌, ◌≡◌, ◌≢◌, ◌⊎◌, refl, sym, ◌∙◌, ap, inl,
  inr, Bool-cases, Option-cases, text-cases, some-eq, eq_iff, subst,
}
use codegen_patterns.Base.Dict.{get, set, get-set_self, get-set_ne, get-set_cases}
use codegen_patterns.Jobs.Pools.{
  PoolDefinition, UserPoolShape, PoolConfig, PoolError, Loaded, loaded, refused, framework_pools,
  override_pool, reserved_checked, concurrency_checked, queue_checked, pool_for, merge_pools,
  load_pool_config,
}

abbrev pub IsUserPool : PoolDefinition → Type 0
IsUserPool p = (p.reserved ≡ false) × (p.queue ≢ "")

abbrev pool_of : Loaded PoolDefinition → PoolDefinition → PoolDefinition
pool_of (loaded p) d = p
pool_of (refused e) d = d

loaded-eq : {p q : PoolDefinition} → loaded p ≡ loaded q → p ≡ q
loaded-eq {p} h = ap (λ x. pool_of x p) h

abbrev config_of : Loaded PoolConfig → PoolConfig → PoolConfig
config_of (loaded c) d = c
config_of (refused e) d = d

config-eq : {c d : PoolConfig} → loaded c ≡ loaded d → c ≡ d
config-eq {c} h = ap (λ x. config_of x c) h

reserved_checked-IsUserPool :
    (name q : String) (n : ℕ) (user : UserPoolShape) (p : PoolDefinition)
    → q ≢ ""
    → reserved_checked name q n user ≡ loaded p
    → IsUserPool p
unfolding reserved_checked
reserved_checked-IsUserPool name q n user p ne h = elim (Bool-cases user.reserved) [
  | inl e ↦ cc (rw e at h)
  | inr e ↦ subst IsUserPool (loaded-eq (rw e at h)) (refl, ne)
]

concurrency_checked-IsUserPool :
    (name q : String) (n : Option ℕ) (user : UserPoolShape) (p : PoolDefinition)
    → q ≢ ""
    → concurrency_checked name q n user ≡ loaded p
    → IsUserPool p
unfolding concurrency_checked
concurrency_checked-IsUserPool name q none user p ne h = cc
concurrency_checked-IsUserPool name q (some n) user p ne h = elim (Bool-cases (n == 0)) [
  | inl e ↦ cc (rw e at h)
  | inr e ↦ reserved_checked-IsUserPool name q n user p ne (rw e at h)
]

queue_checked-IsUserPool :
    (name : String) (q : Option String) (user : UserPoolShape) (p : PoolDefinition)
    → queue_checked name q user ≡ loaded p
    → IsUserPool p
unfolding queue_checked
queue_checked-IsUserPool name none user p h = cc
queue_checked-IsUserPool name (some q) user p h = elim (text-cases q "") [
  | inl e ↦ cc (rw ((eq_iff q "").1 e) at h)
  | inr (ne, e) ↦ concurrency_checked-IsUserPool name q user.concurrency user p ne (rw e at h)
]

-- What merging keeps of a pool that there was, and makes of one that there was not.
abbrev pub Keeps : PoolConfig → PoolConfig → Type 0
Keeps before after =
    ((k : String) (p : PoolDefinition)
      → get k before ≡ some p
      → (q : PoolDefinition) × (get k after ≡ some q)
        × (q.queue ≡ p.queue)
        × (q.reserved ≡ p.reserved))
    × ((k : String) (q : PoolDefinition)
        → get k after ≡ some q
        → get k before ≡ none
        → IsUserPool q)

Keeps-refl : (m : PoolConfig) → Keeps m m
Keeps-refl m = ((λ k p e. (p, e, refl, refl)), λ k q e n. cc)

set-Keeps :
    (name : String) (user : UserPoolShape) (o : Option PoolDefinition) (p : PoolDefinition)
    (m : PoolConfig)
    → get name m ≡ o
    → pool_for name user o ≡ loaded p
    → Keeps m (set name p m)
unfolding pool_for override_pool
set-Keeps name user (some d) p m found h =
    let made : override_pool d user ≡ p = loaded-eq h in
    (
      (λ k x e. elim (text-cases name k) [
        | inl q ↦
            let same : d ≡ x = some-eq (sym found ∙ ap (λ j. get j m) q ∙ e) in
            (
              p,
              subst (λ j. get j (set name p m) ≡ some p) q (get-set_self name p m),
              sym (ap (λ y. y.queue) made) ∙ ap (λ y. y.queue) same,
              sym (ap (λ y. y.reserved) made) ∙ ap (λ y. y.reserved) same,
            )
        | inr (n, _) ↦ (x, get-set_ne k name p m n ∙ e, refl, refl)
      ]),
      λ k q e absent. elim (get-set_cases k name p q m e) [
        | inl (same, _) ↦ cc (ap (λ j. get j m) same)
        | inr (_, old) ↦ cc
      ],
    )
set-Keeps name user none p m found h = (
  (λ k x e. elim (text-cases name k) [
    | inl q ↦ cc (ap (λ j. get j m) q)
    | inr (n, _) ↦ (x, get-set_ne k name p m n ∙ e, refl, refl)
  ]),
  λ k q e absent. elim (get-set_cases k name p q m e) [
    | inl (_, same) ↦ subst IsUserPool same (queue_checked-IsUserPool name user.queue user p h)
    | inr (_, old) ↦ cc
  ],
)

Keeps-trans : (a b c : PoolConfig) → Keeps a b → Keeps b c → Keeps a c
Keeps-trans a b c h g = (
  (λ k p e.
      let (q, f, s, r) = h.0 k p e in let (q', f', s', r') = g.0 k q f in (q', f', s' ∙ s, r' ∙ r)),
  λ k q e absent. elim (Option-cases (get k b)) [
    | inl n ↦ g.1 k q e n
    | inr (p, f) ↦
        let (q', f', s, r) = g.0 k p f in
        let same : q' ≡ q = some-eq (sym f' ∙ e) in
        let (free, named) = h.1 k p f absent in
        subst IsUserPool same (r ∙ free, λ x. named (sym s ∙ x))
  ],
)

merge_pools-next :
    (name : String) (user : UserPoolShape) (users : List (String × UserPoolShape)) (m : PoolConfig)
    (x : Loaded PoolDefinition)
    → pool_for name user (get name m) ≡ x
    → merge_pools ((name, user) ∷ users) m
      ≡ elim x [ refused e ↦ refused e | loaded p ↦ merge_pools users (set name p m) ]
merge_pools-next name user users m x e = unfold merge_pools in rw (merge_pools, e) refl

Loaded-cases :
    (x : Loaded PoolDefinition)
    → ((e : PoolError) × (x ≡ refused e)) ⊎ ((p : PoolDefinition) × (x ≡ loaded p))
Loaded-cases (refused e) = inl (e, refl)
Loaded-cases (loaded p) = inr (p, refl)

merge_pools-Keeps :
    (users : List (String × UserPoolShape)) (m c : PoolConfig)
    → merge_pools users m ≡ loaded c
    → Keeps m c
merge_pools-Keeps [] m c h = unfold merge_pools in subst (Keeps m) (config-eq h) (Keeps-refl m)
merge_pools-Keeps ((name, user) ∷ users) m c h =
    elim (Loaded-cases (pool_for name user (get name m))) [
      | inl (e, q) ↦ cc (sym (merge_pools-next name user users m (refused e) q) ∙ h)
      | inr (p, q) ↦ Keeps-trans m (set name p m) c (set-Keeps name user (get name m) p m refl q) (
          merge_pools-Keeps users (set name p m) c
            (sym (merge_pools-next name user users m (loaded p) q) ∙ h))
    ]

-- In a configuration that is loaded, whatever the user's file holds, each pool of the framework is
-- there with its own queue and its own reservation, and every other pool is not reserved and has a
-- queue whose name is not empty.
pub load_pool_config_lem :
    (file : Option (List (String × UserPoolShape))) (config : PoolConfig)
    → load_pool_config file ≡ loaded config
    → ((k : String) (p : PoolDefinition)
        → get k framework_pools ≡ some p
        → (q : PoolDefinition) × (get k config ≡ some q)
          × (q.queue ≡ p.queue)
          × (q.reserved ≡ p.reserved))
      × ((k : String) (q : PoolDefinition)
          → get k config ≡ some q
          → get k framework_pools ≡ none
          → IsUserPool q)
unfolding load_pool_config
load_pool_config_lem none config h =
    subst (Keeps framework_pools) (config-eq h) (Keeps-refl framework_pools)
load_pool_config_lem (some users) config h = merge_pools-Keeps users framework_pools config h
