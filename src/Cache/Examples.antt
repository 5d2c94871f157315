-- ===== src/Cache/Examples.antt =====
-- The cache's theorem at a cache whose timer has fired and at one that evicts on reading.
use codegen_patterns.Base.{ℕ, none, some, ◌≡◌, refl, arith}
use codegen_patterns.Base.Dict.{get, set, remove}
use codegen_patterns.Cache.{Cache, set_value, get_value, evict}
use codegen_patterns.Cache.Refines.{Entries, live, put_entry}
use codegen_patterns.Cache.Reach.{
  new_cache, stored_entry, Reach, new, waited, fired, stored, get_value-Reach,
}

-- Two writes at 1000, one for two seconds and one for ever.
abbrev two_written : Cache ℕ
two_written =
    set_value ℕ "b" (some 8) none 1000 (set_value ℕ "a" (some 7) (some 2) 1000 (new_cache ℕ none))

abbrev two_entries : Entries ℕ
two_entries =
    put_entry ℕ "b" (stored_entry ℕ none (some 8) none 1000)
      (put_entry ℕ "a" (stored_entry ℕ none (some 7) (some 2) 1000) (λ k. none))

two_written-Reach : Reach ℕ none 1000 two_written two_entries
two_written-Reach =
    stored "b" (some 8) none tt (stored "a" (some 7) (some 2) (omega arith) (new 1000))

-- The timer of "a" fires at 3001.
abbrev timer_fired : Cache ℕ
timer_fired = evict ℕ "a" two_written

timer_fired-Reach : Reach ℕ none 3001 timer_fired two_entries
unfolding set_value get set remove
timer_fired-Reach = fired "a" 3000 refl (omega arith) (waited 3001 (omega arith) two_written-Reach)

get_value-Reach_example : (get_value ℕ "a" 3001 timer_fired).1 ≡ live ℕ 3001 (two_entries "a")
get_value-Reach_example = get_value-Reach ℕ none timer_fired-Reach "a"
