-- ===== src/Locks/Memory.antt =====
-- in-memory-loops-lock.backend.ts: the `Set` of the single process, without repetitions.
use vibecoding_dofe_ai.Base.{
  not, String, List, [], ◌∷◌, Option, none, some, find, filter, includes, if◌then◌else◌, ◌==◌,
  string_eq,
}
use vibecoding_dofe_ai.Locks.Backends.{Grant, granted, conflict, LockBackend}

abbrev pub Locks : Type 0
Locks = List String

-- `this.locks.add(key)`
abbrev pub add : Locks → String → Locks
add locks key = if includes locks key then locks else key ∷ locks

abbrev pub add_all : List String → Locks → Locks
add_all [] locks = locks
add_all (key ∷ keys) locks = add_all keys (add locks key)

-- `this.locks.delete(key)`
abbrev pub delete : Locks → String → Locks
delete locks key = filter (λ other. not (other == key)) locks

abbrev pub delete_all : List String → Locks → Locks
delete_all [] locks = locks
delete_all (key ∷ keys) locks = delete_all keys (delete locks key)

-- `if (held)`: the empty text does not count as held.
abbrev pub acquire_unless : Option String → List String → Locks → Grant Locks
acquire_unless none keys locks = granted (add_all keys locks)
acquire_unless (some held) keys locks =
    if held == "" then granted (add_all keys locks) else conflict held locks

unfoldable pub acquire : List String → Locks → Grant Locks
acquire keys locks = acquire_unless (find (λ key. includes locks key) keys) keys locks

unfoldable pub release : List String → Locks → Locks
release keys locks = delete_all keys locks

abbrev pub backend : LockBackend Locks
backend = record { acquire = acquire; release = release }
