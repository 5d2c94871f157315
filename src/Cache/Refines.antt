-- ===== src/Cache/Refines.antt =====
-- `MemoryCacheService` (cache/cache.memory-backend.ts) against a map from keys to entries that has no
-- timers, never evicts and looks at the clock only when it is read.
use codegen_patterns.Base.{
  ℕ, leb, ◌+◌, ◌*◌, ◌≤◌, String, Option, none, some, Bool, true, false, ◌=ₛ◌, ◌≡◌, refl, sym, ◌∙◌,
  ap, inl, inr, arith, if◌then◌else◌, Bool-cases, eq_iff,
}
use codegen_patterns.Base.Dict.{get, get-remove}
use codegen_patterns.Cache.{
  CacheRecord, Cache, clear_timer, evict, is_expired, read_record, get_value,
}
use text.Mathlib.Text.{starts_with}

module _ (V : Type 0) where
  -- The map of the specification, and what it holds at an instant.
  abbrev pub Entries : Type 0
  Entries = String → Option (CacheRecord V)

  abbrev pub is_over : ℕ → Option ℕ → Bool
  is_over t none = false
  is_over t (some at) = leb at t

  abbrev pub live : ℕ → Option (CacheRecord V) → Option V
  live t none = none
  live t (some r) = if is_over t r.expires_at then none else r.value

  abbrev pub entry : Option V → Option ℕ → ℕ → CacheRecord V
  entry value none now = record { value = value; expires_at = none }
  entry value (some ttl) now = record { value = value; expires_at = some (now + ttl * 1000) }

  abbrev pub put_entry : String → CacheRecord V → Entries → Entries
  put_entry key r f k = if key =ₛ k then some r else f k

  abbrev pub drop_entry : String → Entries → Entries
  drop_entry key f k = if key =ₛ k then none else f k

  abbrev pub drop_prefix : String → Entries → Entries
  drop_prefix prefix f k = if starts_with k prefix then none else f k

  -- Each timer is due when the entry of its key is over.
  abbrev pub Timed : Cache V → Type 0
  Timed c =
      (k : String) (at : ℕ)
      → get k c.timers ≡ some at
      → (r : CacheRecord V) × (get k c.store ≡ some r) × (is_over at r.expires_at ≡ true)

  pub record Agrees (default_ttl : Option ℕ) (now : ℕ) (c : Cache V) (f : Entries) : Type 0 where
    pub same : (k : String) (t : ℕ) → now ≤ t → live t (get k c.store) ≡ live t (f k)
    pub timed : Timed c
    pub default : c.default_ttl ≡ default_ttl

  pub evict-Timed : (key : String) (c : Cache V) → Timed c → Timed (evict V key c)
  unfolding evict clear_timer
  evict-Timed key c h k at found = elim (Bool-cases (key =ₛ k)) [
    | inl e ↦
        cc (sym found ∙ get-remove k key c.timers ∙ ap (λ b. if b then none else get k c.timers) e)
    | inr e ↦
        let old =
          sym (get-remove k key c.timers ∙ ap (λ b. if b then none else get k c.timers) e)
          ∙ found in
        let (r, stored, at_r) = h k at old in
        (r, get-remove k key c.store ∙ ap (λ b. if b then none else get k c.store) e ∙ stored, at_r)
  ]

  -- An entry that is expired now is expired from now on.
  expired_stays :
      (now t : ℕ) (at : Option ℕ) → now ≤ t → is_expired V now at ≡ true → is_over t at ≡ true
  unfolding is_expired
  expired_stays now t none le h = cc
  expired_stays now t (some at) le h = ground arith

  -- Eviction of an entry that is expired is not seen.
  evict-same :
      (key : String) (c : Cache V) (now : ℕ) (r : CacheRecord V)
      → get key c.store ≡ some r
      → is_expired V now r.expires_at ≡ true
      → (k : String) (t : ℕ) → now ≤ t
      → live t (get k (evict V key c).store) ≡ live t (get k c.store)
  unfolding evict clear_timer
  evict-same key c now r found expired k t le = elim (Bool-cases (key =ₛ k)) [
    | inl e ↦
        let here = ap (λ x. get x c.store) (sym ((eq_iff key k).0 e)) ∙ found in
        ap (live t) (get-remove k key c.store ∙ ap (λ b. if b then none else get k c.store) e)
        ∙ sym (
            ap (live t) here
            ∙ ap (λ b. if b then none else r.value) (expired_stays now t r.expires_at le expired))
    | inr e ↦ ap (live t) (get-remove k key c.store ∙ ap (λ b. if b then none else get k c.store) e)
  ]

  pub evict-Agrees :
      (d : Option ℕ) (key : String) (c : Cache V) (now : ℕ) (f : Entries) (r : CacheRecord V)
      → get key c.store ≡ some r
      → is_expired V now r.expires_at ≡ true
      → Agrees d now c f
      → Agrees d now (evict V key c) f
  unfolding evict clear_timer
  evict-Agrees d key c now f r found expired h = record {
    same = λ k t le. evict-same key c now r found expired k t le ∙ h.same k t le;
    timed = evict-Timed key c h.timed;
    default = h.default;
  }

  read_record-Agrees :
      (d : Option ℕ) (key : String) (c : Cache V) (now : ℕ) (f : Entries)
      (o : Option (CacheRecord V))
      → get key c.store ≡ o
      → Agrees d now c f
      → Agrees d now (read_record V key now o c).0 f
  unfolding read_record
  read_record-Agrees d key c now f none found h = h
  read_record-Agrees d key c now f (some r) found h =
      elim (Bool-cases (is_expired V now r.expires_at)) [
        | inl e ↦ rw e (evict-Agrees d key c now f r found e h)
        | inr e ↦ rw e h
      ]

  pub get_value-Agrees :
      (d : Option ℕ) (key : String) (c : Cache V) (now : ℕ) (f : Entries)
      → Agrees d now c f
      → Agrees d now (get_value V key now c).0 f
  unfolding get_value
  get_value-Agrees d key c now f h = read_record-Agrees d key c now f (get key c.store) refl h

  is_expired-is_over : (now : ℕ) (at : Option ℕ) → is_expired V now at ≡ is_over now at
  unfolding is_expired
  is_expired-is_over now none = refl
  is_expired-is_over now (some at) = refl

  read_record-live :
      (key : String) (now : ℕ) (o : Option (CacheRecord V)) (c : Cache V)
      → (read_record V key now o c).1 ≡ live now o
  unfolding read_record
  read_record-live key now none c = refl
  read_record-live key now (some r) c = elim (Bool-cases (is_over now r.expires_at)) [
    | inl e ↦ rw (is_expired-is_over now r.expires_at, e) refl
    | inr e ↦ rw (is_expired-is_over now r.expires_at, e) refl
  ]

  pub get_value-live :
      (key : String) (now : ℕ) (c : Cache V)
      → (get_value V key now c).1 ≡ live now (get key c.store)
  unfolding get_value
  get_value-live key now c = read_record-live key now (get key c.store) c
