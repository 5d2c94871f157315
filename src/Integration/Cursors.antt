-- ===== src/Integration/Cursors.antt =====
-- `ICursorStore` (integration/integration-cursor-store.protocol.ts) as an interface, and
-- `MemoryCursorStore` (integration/integration-cursor-store.memory-backend.ts), which implements it.
-- A cursor is any JSON value but `null`, which is `none`.
use codegen_patterns.Base.{String, Option, some, ◌≡◌, ap}
use codegen_patterns.Base.Dict.{Dict, get, set, get-set_self}
use codegen_patterns.Integration.Recorder.{Attempt, done}

-- A store may fail. One that has put a cursor gives it back.
pub record CursorStore (Cursor : Type 0) : Type 1 where
  pub Store : Type 0
  pub get_cursor : String → Option String → Store → Attempt (Option Cursor)
  pub put_cursor : String → Cursor → Option String → Store → Store × Attempt (Unit {0})
  pub get_put :
      (id : String) (c : Cursor) (tenant : Option String) (s : Store)
      → (put_cursor id c tenant s).1 ≡ done tt
      → get_cursor id tenant (put_cursor id c tenant s).0 ≡ done (some c)

-- The methods of `MemoryCursorStore`, which keep no tenant apart.
unfoldable pub memory_get : {C : Type 0} → String → Option String → Dict C → Attempt (Option C)
memory_get id tenant cursors = done (get id cursors)

unfoldable pub memory_put :
    {C : Type 0} → String → C → Option String → Dict C → Dict C × Attempt (Unit {0})
memory_put id cursor tenant cursors = (set id cursor cursors, done tt)

pub memory_get-memory_put :
    {C : Type 0} (id : String) (c : C) (tenant : Option String) (s : Dict C)
    → (memory_put id c tenant s).1 ≡ done tt
    → memory_get id tenant (memory_put id c tenant s).0 ≡ done (some c)
unfolding memory_get memory_put
memory_get-memory_put id c tenant s h = ap done (get-set_self id c s)

abbrev pub memory_cursor_store : (C : Type 0) → CursorStore C
memory_cursor_store C = record {
  Store = Dict C;
  get_cursor = memory_get;
  put_cursor = memory_put;
  get_put = memory_get-memory_put;
}
