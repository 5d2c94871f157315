-- ===== src/Cache/Reach.antt =====
-- The sequences of operations, timers and pauses of `MemoryCacheService` (cache/cache.memory-backend.ts)
-- beside the map of the specification.
use codegen_patterns.Base.{
  ℕ, ◌≤◌, String, Option, none, some, true, [], ◌≡◌, refl, sym, ◌∙◌, ap, arith,
}
use codegen_patterns.Base.Dict.{get}
use codegen_patterns.Cache.{
  CacheRecord, Cache, evict, is_expired, get_value, keep_first, set_value, delete_key,
  invalidate_by_prefix, has_value, begin_missing, after_get, begin_get_or_set, settle,
}
use codegen_patterns.Cache.Refines.{
  Entries, is_over, live, entry, put_entry, drop_entry, drop_prefix, Agrees, evict-Agrees,
  get_value-Agrees, get_value-live,
}
use codegen_patterns.Cache.Writes.{IsShort, set_value-Agrees, delete_key-Agrees}
use codegen_patterns.Cache.Prefix.{invalidate-Agrees}

module _ (V : Type 0) (default_ttl : Option ℕ) where
  abbrev pub new_cache : Cache V
  new_cache = record { store = []; timers = []; inflight = []; default_ttl = default_ttl }

  abbrev pub stored_entry : Option V → Option ℕ → ℕ → CacheRecord V
  stored_entry value ttl now = entry V value (keep_first V ttl default_ttl) now

  -- What a settled factory does to the map.
  abbrev pub settled_entries : String → Option (Option V) → Option ℕ → ℕ → Entries V → Entries V
  settled_entries key none ttl now f = f
  settled_entries key (some value) ttl now f = put_entry V key (stored_entry value ttl now) f

  -- At an instant, a cache and the map of the specification after the same operations. A timer may
  -- fire at any time after it is due.
  pub data Reach : ℕ → Cache V → Entries V → Type 0 where
    new : (now : ℕ) → Reach now new_cache (λ k. none)
    waited :
        {now : ℕ} {c : Cache V} {f : Entries V} (later : ℕ)
        → now ≤ later
        → Reach now c f
        → Reach later c f
    fired :
        {now : ℕ} {c : Cache V} {f : Entries V} (key : String) (at : ℕ)
        → get key c.timers ≡ some at
        → at ≤ now
        → Reach now c f
        → Reach now (evict V key c) f
    got :
        {now : ℕ} {c : Cache V} {f : Entries V} (key : String)
        → Reach now c f
        → Reach now (get_value V key now c).0 f
    asked :
        {now : ℕ} {c : Cache V} {f : Entries V} (key : String)
        → Reach now c f
        → Reach now (has_value V key now c).0 f
    stored :
        {now : ℕ} {c : Cache V} {f : Entries V} (key : String) (value : Option V) (ttl : Option ℕ)
        → IsShort (keep_first V ttl default_ttl)
        → Reach now c f
        → Reach now
            (set_value V key value ttl now c)
            (put_entry V key (stored_entry value ttl now) f)
    deleted :
        {now : ℕ} {c : Cache V} {f : Entries V} (key : String)
        → Reach now c f
        → Reach now (delete_key V key c) (drop_entry V key f)
    invalidated :
        {now : ℕ} {c : Cache V} {f : Entries V} (prefix : String)
        → Reach now c f
        → Reach now (invalidate_by_prefix V prefix c).0 (drop_prefix V prefix f)
    began :
        {now : ℕ} {c : Cache V} {f : Entries V} (key promise : String)
        → Reach now c f
        → Reach now (begin_get_or_set V key promise now c).0 f
    settled :
        {now : ℕ} {c : Cache V} {f : Entries V} (key : String) (value : Option (Option V))
        (ttl : Option ℕ)
        → IsShort (keep_first V ttl default_ttl)
        → Reach now c f
        → Reach now (settle V key value ttl now c) (settled_entries key value ttl now f)

  -- `Agrees` does not look at the promises.
  Agrees-inflight :
      {now : ℕ} {c c' : Cache V} {f : Entries V}
      → c'.store ≡ c.store
      → c'.timers ≡ c.timers
      → c'.default_ttl ≡ c.default_ttl
      → Agrees V default_ttl now c f
      → Agrees V default_ttl now c' f
  Agrees-inflight s t d h = record {
    same = λ k x le. ap (λ m. live V x (get k m)) s ∙ h.same k x le;
    timed = λ k at found.
        let (r, row, at_r) = h.timed k at (ap (get k) (sym t) ∙ found) in
        (r, ap (get k) s ∙ row, at_r);
    default = d ∙ h.default;
  }

  begin_missing-Agrees :
      {now : ℕ} {c : Cache V} {f : Entries V} (key promise : String) (o : Option String)
      → Agrees V default_ttl now c f
      → Agrees V default_ttl now (begin_missing V key promise o c).0 f
  unfolding begin_missing
  begin_missing-Agrees key promise none h = Agrees-inflight refl refl refl h
  begin_missing-Agrees key promise (some p) h = h

  after_get-Agrees :
      {now : ℕ} {f : Entries V} (key promise : String) (p : Cache V × Option V)
      → Agrees V default_ttl now p.0 f
      → Agrees V default_ttl now (after_get V key promise p).0 f
  unfolding after_get
  after_get-Agrees key promise (c, none) h = begin_missing-Agrees key promise (get key c.inflight) h
  after_get-Agrees key promise (c, some v) h = h

  settle-Agrees :
      {now : ℕ} {c : Cache V} {f : Entries V} (key : String) (value : Option (Option V))
      (ttl : Option ℕ)
      → IsShort (keep_first V ttl default_ttl)
      → Agrees V default_ttl now c f
      → Agrees V default_ttl now
          (settle V key value ttl now c)
          (settled_entries key value ttl now f)
  unfolding settle
  settle-Agrees key none ttl short h = Agrees-inflight refl refl refl h
  settle-Agrees {now} {c} {f} key (some value) ttl short h =
      Agrees-inflight refl refl refl (set_value-Agrees V default_ttl key value ttl now c f short h)

  -- A timer that fires removes an entry that is expired.
  fired-Agrees :
      {now : ℕ} {c : Cache V} {f : Entries V} (key : String) (at : ℕ)
      → get key c.timers ≡ some at
      → at ≤ now
      → Agrees V default_ttl now c f
      → Agrees V default_ttl now (evict V key c) f
  unfolding is_expired
  fired-Agrees {now} {c} {f} key at found due h =
      let (r, row, at_r) = h.timed key at found in
      evict-Agrees V default_ttl key c now f r row (later_over r.expires_at at_r) h
    where
      later_over : (e : Option ℕ) → is_over V at e ≡ true → is_expired V now e ≡ true
      later_over none h = cc
      later_over (some e) h = ground arith

  Reach-Agrees :
      {now : ℕ} {c : Cache V} {f : Entries V} → Reach now c f → Agrees V default_ttl now c f
  unfolding get has_value begin_get_or_set
  Reach-Agrees (new now) = record {
    same = λ k t le. refl;
    timed = λ k at found. cc;
    default = refl;
  }
  Reach-Agrees (waited {now} later le r) =
      let h = Reach-Agrees r in
      record {
        same = λ k t le'. h.same k t (omega (arith, le, le'));
        timed = h.timed;
        default = h.default;
      }
  Reach-Agrees (fired key at found due r) = fired-Agrees key at found due (Reach-Agrees r)
  Reach-Agrees (got {now} {c} {f} key r) =
      get_value-Agrees V default_ttl key c now f (Reach-Agrees r)
  Reach-Agrees (asked {now} {c} {f} key r) =
      get_value-Agrees V default_ttl key c now f (Reach-Agrees r)
  Reach-Agrees (stored {now} {c} {f} key value ttl short r) =
      set_value-Agrees V default_ttl key value ttl now c f short (Reach-Agrees r)
  Reach-Agrees (deleted {now} {c} {f} key r) =
      delete_key-Agrees V default_ttl key now c f (Reach-Agrees r)
  Reach-Agrees (invalidated {now} {c} {f} prefix r) =
      invalidate-Agrees V default_ttl prefix now c f (Reach-Agrees r)
  Reach-Agrees (began {now} {c} {f} key promise r) =
      after_get-Agrees key promise (get_value V key now c)
        (get_value-Agrees V default_ttl key c now f (Reach-Agrees r))
  Reach-Agrees (settled key value ttl short r) = settle-Agrees key value ttl short (Reach-Agrees r)

  -- After any operations, pauses and timers, `get` returns for each key what the map of the
  -- specification holds at that instant: the last value that was written and neither deleted nor
  -- expired. The operations may write with any time to live whose timer `setTimeout` can wait for, or
  -- with none. Timers, lazy evictions and pending factories are not seen.
  pub get_value-Reach :
      {now : ℕ} {c : Cache V} {f : Entries V}
      → Reach now c f
      → (key : String) → (get_value V key now c).1 ≡ live V now (f key)
  get_value-Reach {now} {c} r key =
      let h = Reach-Agrees r in get_value-live V key now c ∙ h.same key now (omega arith)
