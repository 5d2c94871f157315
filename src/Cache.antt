-- ===== src/Cache.antt =====
-- `MemoryCacheService` (cache/cache.memory-backend.ts). Every method takes the instant `now`, in
-- milliseconds; a time to live is a whole number of seconds. A value may be `null`, which is `none`.
-- A call of `getOrSet` is two steps, up to the call of the factory and after its promise has settled.
pub mod Refines
pub mod Writes
pub mod Prefix
pub mod Reach
mod Examples
use codegen_patterns.Base.{
  ℕ, zero, suc, ◌+◌, ◌*◌, String, Option, none, some, Bool, true, false, List, [], ◌∷◌, map, leb,
  ◌&&◌, if◌then◌else◌, or_else,
}
use codegen_patterns.Base.Dict.{Dict, get, set, remove}
use text.Mathlib.Text.{starts_with}

module _ (V : Type 0) where
  pub record CacheRecord : Type 0 where
    pub value : Option V
    pub expires_at : Option ℕ

  -- `timers` has the instant at which each pending timer is due; `inflight` has the name of the promise
  -- of each key that is being computed.
  pub record Cache : Type 0 where
    pub store : Dict CacheRecord
    pub timers : Dict ℕ
    pub inflight : Dict String
    pub default_ttl : Option ℕ

  unfoldable pub clear_timer : String → Cache → Cache
  clear_timer key c = record c { timers = remove key c.timers }

  -- `evict`, also the body of the timer
  unfoldable pub evict : String → Cache → Cache
  unfolding clear_timer
  evict key c = clear_timer key (record c { store = remove key c.store })

  unfoldable pub is_expired : ℕ → Option ℕ → Bool
  is_expired now none = false
  is_expired now (some at) = leb at now

  unfoldable pub read_record : String → ℕ → Option CacheRecord → Cache → Cache × Option V
  unfolding evict is_expired
  read_record key now none c = (c, none)
  read_record key now (some r) c =
      if is_expired now r.expires_at then (evict key c, none) else (c, r.value)

  -- `get`
  unfoldable pub get_value : String → ℕ → Cache → Cache × Option V
  unfolding read_record
  get_value key now c = read_record key now (get key c.store) c

  abbrev pub keep_first : Option ℕ → Option ℕ → Option ℕ
  keep_first none b = b
  keep_first (some a) b = some a

  -- The delay of `setTimeout`, which runs a delay that is longer than a signed 32-bit number of
  -- milliseconds, or shorter than one, after one millisecond.
  unfoldable pub timer_delay : ℕ → ℕ
  timer_delay ms = if leb ms 2147483647 && leb 1 ms then ms else 1

  unfoldable pub put_record : String → Option V → Option ℕ → ℕ → Cache → Cache
  unfolding timer_delay
  put_record key value none now c = record c {
    store = set key (record { value = value; expires_at = none }) c.store;
  }
  put_record key value (some ttl) now c = record c {
    store = set key (record { value = value; expires_at = some (now + ttl * 1000) }) c.store;
    timers = set key (now + timer_delay (ttl * 1000)) c.timers;
  }

  -- `set`
  unfoldable pub set_value : String → Option V → Option ℕ → ℕ → Cache → Cache
  unfolding clear_timer put_record
  set_value key value ttl now c =
      put_record key value (keep_first ttl c.default_ttl) now (clear_timer key c)

  unfoldable pub delete_key : String → Cache → Cache
  unfolding evict
  delete_key key c = evict key c

  -- The loop over the keys of the store, with the number of keys that are evicted.
  unfoldable pub evict_prefix : String → List String → Cache → Cache × ℕ
  unfolding evict
  evict_prefix prefix [] c = (c, 0)
  evict_prefix prefix (k ∷ ks) c =
      let r = evict_prefix prefix ks (if starts_with k prefix then evict k c else c) in
      (r.0, if starts_with k prefix then suc r.1 else r.1)

  unfoldable pub invalidate_by_prefix : String → Cache → Cache × ℕ
  unfolding evict_prefix
  invalidate_by_prefix prefix c = evict_prefix prefix (map (λ p. p.0) c.store) c

  abbrev pub is_value : Option V → Bool
  is_value none = false
  is_value (some v) = true

  unfoldable pub has_value : String → ℕ → Cache → Cache × Bool
  unfolding get_value
  has_value key now c = let r = get_value key now c in (r.0, is_value r.1)

  pub data Begun : Type 0 where
    hit : V → Begun
    joined : String → Begun
    called_factory : Begun

  unfoldable pub begin_missing : String → String → Option String → Cache → Cache × Begun
  begin_missing key promise (some existing) c = (c, joined existing)
  begin_missing key promise none c =
      (record c { inflight = set key promise c.inflight }, called_factory)

  unfoldable pub after_get : String → String → Cache × Option V → Cache × Begun
  unfolding begin_missing
  after_get key promise (c, some v) = (c, hit v)
  after_get key promise (c, none) = begin_missing key promise (get key c.inflight) c

  -- `getOrSet`, up to the promise that it returns
  unfoldable pub begin_get_or_set : String → String → ℕ → Cache → Cache × Begun
  unfolding get_value after_get
  begin_get_or_set key promise now c = after_get key promise (get_value key now c)

  -- The rest, when the factory has given a value, or has failed (`none`).
  unfoldable pub settle : String → Option (Option V) → Option ℕ → ℕ → Cache → Cache
  unfolding set_value
  settle key none ttl now c = record c { inflight = remove key c.inflight }
  settle key (some value) ttl now c =
      let stored = set_value key value ttl now c in
      record stored { inflight = remove key stored.inflight }
