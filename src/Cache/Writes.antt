-- ===== src/Cache/Writes.antt =====
-- `set` and `delete` of `MemoryCacheService` (cache/cache.memory-backend.ts) beside the map of the
-- specification.
use codegen_patterns.Base.{
  ℕ, ◌+◌, ◌*◌, ◌≤◌, String, Option, none, some, true, false, ◌=ₛ◌, ◌≡◌, refl, sym, subst, ◌∙◌, ap,
  inl, inr, if◌then◌else◌, Bool-cases, arith, leb, some-eq,
}
use codegen_patterns.Base.Dict.{Dict, get, set, remove, get-set, get-remove}
use codegen_patterns.Cache.{
  CacheRecord, Cache, clear_timer, evict, keep_first, timer_delay, put_record, set_value,
  delete_key,
}
use codegen_patterns.Cache.Refines.{
  Entries, live, entry, put_entry, drop_entry, is_over, Timed, Agrees, evict-Timed,
}

-- A time to live that `setTimeout` can wait for: less than about 24.8 days.
abbrev pub IsShort : Option ℕ → Type 0
IsShort none = Unit
IsShort (some ttl) = ttl * 1000 ≤ 2147483647

module _ (V : Type 0) where
  put_same :
      (key : String) (r : CacheRecord V) (f : Entries V) (store : Dict (CacheRecord V)) (now : ℕ)
      → ((k : String) (t : ℕ) → now ≤ t → live V t (get k store) ≡ live V t (f k))
      → (k : String) (t : ℕ) → now ≤ t
      → live V t (get k (set key r store)) ≡ live V t (put_entry V key r f k)
  put_same key r f store now h k t le = elim (Bool-cases (key =ₛ k)) [
    | inl e ↦ rw (get-set k key r store, e) refl
    | inr e ↦ rw (get-set k key r store, e) (h k t le)
  ]

  -- A timer of another key is still that of its entry V after a write.
  put-Timed :
      (key : String) (r : CacheRecord V) (c : Cache V) (k : String) (at : ℕ)
      → Timed V c
      → (key =ₛ k) ≡ false
      → get k (remove key c.timers) ≡ some at
      → (x : CacheRecord V) × (get k (set key r c.store) ≡ some x)
        × (is_over V at x.expires_at ≡ true)
  put-Timed key r c k at h other found =
      let old =
        sym (get-remove k key c.timers ∙ ap (λ b. if b then none else get k c.timers) other)
        ∙ found in
      let (x, stored, at_x) = h k at old in
      (
        x,
        get-set k key r c.store ∙ ap (λ b. if b then some r else get k c.store) other ∙ stored,
        at_x,
      )

  due_when_over :
      (ttl now : ℕ)
      → ttl * 1000 ≤ 2147483647
      → leb (now + ttl * 1000) (now + timer_delay V (ttl * 1000)) ≡ true
  unfolding timer_delay
  due_when_over ttl now short = ground arith

  put_record-Agrees :
      (d : Option ℕ) (key : String) (value : Option V) (ttl : Option ℕ) (now : ℕ) (c : Cache V)
      (f : Entries V)
      → IsShort ttl
      → Agrees V d now c f
      → Agrees V d now
          (put_record V key value ttl now (clear_timer V key c))
          (put_entry V key (entry V value ttl now) f)
  unfolding put_record clear_timer
  put_record-Agrees d key value none now c f short h = record {
    same = put_same key (entry V value none now) f c.store now h.same;
    timed = λ k at found. elim (Bool-cases (key =ₛ k)) [
      | inl e ↦
          cc
            (sym found ∙ get-remove k key c.timers ∙ ap (λ b. if b then none else get k c.timers) e)
      | inr e ↦ put-Timed key (entry V value none now) c k at h.timed e found
    ];
    default = h.default;
  }
  put_record-Agrees d key value (some ttl) now c f short h =
      let due = now + timer_delay V (ttl * 1000) in
      let r = entry V value (some ttl) now in
      record {
        same = put_same key r f c.store now h.same;
        timed = λ k at found. elim (Bool-cases (key =ₛ k)) [
          | inl e ↦
              let set_here =
                get-set k key due (remove key c.timers)
                ∙ ap (λ b. if b then some due else get k (remove key c.timers)) e in
              (
                r,
                get-set k key r c.store ∙ ap (λ b. if b then some r else get k c.store) e,
                ap (λ x. is_over V x r.expires_at) (sym (some-eq (sym set_here ∙ found)))
                    ∙ due_when_over ttl now short,
              )
          | inr e ↦
              let old =
                sym (
                  get-set k key due (remove key c.timers)
                  ∙ ap (λ b. if b then some due else get k (remove key c.timers)) e)
                ∙ found in
              put-Timed key r c k at h.timed e old
        ];
        default = h.default;
      }

  pub set_value-Agrees :
      (d : Option ℕ) (key : String) (value : Option V) (ttl : Option ℕ) (now : ℕ) (c : Cache V)
      (f : Entries V)
      → IsShort (keep_first V ttl d)
      → Agrees V d now c f
      → Agrees V d now
          (set_value V key value ttl now c)
          (put_entry V key (entry V value (keep_first V ttl d) now) f)
  unfolding set_value
  set_value-Agrees d key value ttl now c f short h =
      subst
        (λ x.
          Agrees V d now (set_value V key value ttl now c)
            (put_entry V key (entry V value (keep_first V ttl x) now) f))
        h.default
        (put_record-Agrees d key value (keep_first V ttl c.default_ttl) now c f
          (subst (λ x. IsShort (keep_first V ttl x)) (sym h.default) short) h)

  pub delete_key-Agrees :
      (d : Option ℕ) (key : String) (now : ℕ) (c : Cache V) (f : Entries V)
      → Agrees V d now c f
      → Agrees V d now (delete_key V key c) (drop_entry V key f)
  unfolding delete_key evict clear_timer
  delete_key-Agrees d key now c f h = record {
    same = λ k t le. elim (Bool-cases (key =ₛ k)) [
      | inl e ↦ rw (get-remove k key c.store, e) refl
      | inr e ↦ rw (get-remove k key c.store, e) (h.same k t le)
    ];
    timed = evict-Timed V key c h.timed;
    default = h.default;
  }
