-- ===== src/Locks/InMemory.antt =====
-- in-memory-loops-lock.backend.ts against the promise of a backend.
use vibecoding_dofe_ai.Base.{
  ◌≡◌, refl, false, not, ◌&&◌, ◌||◌, String, List, [], ◌∷◌, Option, none, some, find, includes,
  ◌==◌, string_eq, arith, Bool-cases, inl, inr,
}
use vibecoding_dofe_ai.Locks.Keys.{IsDistinct, same_key, find-includes}
use vibecoding_dofe_ai.Locks.Promise.{Answers, IsBackend}
use vibecoding_dofe_ai.Locks.Memory

module _ (key : String) where
  includes-add :
      (locks : List String) (other : String)
      → includes (Memory.add locks key) other ≡ (key == other || includes locks other)
  includes-add locks other = elim (Bool-cases (includes locks key)) [
    | inl t ↦ rw t (ground (arith, same_key (includes locks) key other, t))
    | inr t ↦ rw t refl
  ]

  includes-delete :
      (locks : List String) (other : String)
      → includes (Memory.delete locks key) other ≡ (includes locks other && not (key == other))
  includes-delete [] other = refl
  includes-delete (x ∷ xs) other = elim (Bool-cases (x == key)) [
    | inl t ↦ rw t (ground (arith, includes-delete xs other, same_key (λ k. k == other) x key t))
    | inr t ↦ rw t (ground (arith, includes-delete xs other, same_key (λ k. x == k) key other, t))
  ]

includes-add_all :
    (keys locks : List String) (key : String)
    → includes (Memory.add_all keys locks) key ≡ (includes keys key || includes locks key)
includes-add_all [] locks key = refl
includes-add_all (k ∷ keys) locks key =
    ground (arith, includes-add_all keys (Memory.add locks k) key, includes-add k locks key)

includes-delete_all :
    (keys locks : List String) (key : String)
    → includes (Memory.delete_all keys locks) key ≡ (includes locks key && not (includes keys key))
includes-delete_all [] locks key = ground arith
includes-delete_all (k ∷ keys) locks key =
    ground
      (arith, includes-delete_all keys (Memory.delete locks k) key, includes-delete k locks key)

pub acquire-Answers :
    (keys locks : List String)
    → IsDistinct keys
    → includes keys "" ≡ false
    → Answers includes includes keys locks (Memory.acquire keys locks)
unfolding Memory.acquire
acquire-Answers keys locks h full = go (find (λ key. includes locks key) keys) refl
  where
    go :
        (o : Option String)
        → find (λ key. includes locks key) keys ≡ o
        → Answers includes includes keys locks (Memory.acquire_unless o keys locks)
    go none e = (
      e,
      includes-add_all keys locks,
      λ key k. ground (arith, includes-add_all keys locks key, k),
    )
    go (some key) e = elim (Bool-cases (key == "")) [
      | inl t ↦ absurd (
          ground (
            arith,
            full,
            same_key (λ k. includes keys k) key "" t,
            find-includes (λ k. includes locks k) keys key e,
          ))
      | inr t ↦ rw t (e, λ other. refl)
    ]

pub release_lem :
    (keys locks : List String) (key : String)
    → includes (Memory.release keys locks) key ≡ (includes locks key && not (includes keys key))
unfolding Memory.release
release_lem keys locks key = includes-delete_all keys locks key

instance abbrev pub memory-IsBackend : IsBackend Memory.backend
memory-IsBackend = record {
  held = includes;
  own = includes;
  acquires = acquire-Answers;
  releases = λ keys locks h own key. release_lem keys locks key;
}
