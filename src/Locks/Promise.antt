-- ===== src/Locks/Promise.antt =====
-- What `loops-lock-backend.interface.ts` asks of a backend, and what work under the lock relies on.
use vibecoding_dofe_ai.Base.{
  [], ◌∷◌, ◌∙◌, sym, ◌==◌, string_eq, arith, Bool-cases, inl, inr, ◌≡◌, refl, Bool, true, false,
  not, ◌&&◌, ◌||◌, String, List, none, some, find, includes,
}
use vibecoding_dofe_ai.Store.{Reply}
use vibecoding_dofe_ai.Locks.Backends.{Grant, granted, conflict, LockBackend}
use vibecoding_dofe_ai.Locks.Requests.{lock_keys, with_issue_and_repo_lock, run_granted}
use vibecoding_dofe_ai.Locks.Keys.{IsDistinct, same_key, lock_keys-IsDistinct, lock_keys-full}

module _ {S : Type 0} (held own : S → String → Bool) where
  -- The answer to `acquire`, by what was held before: the first key that was held is refused and
  -- nothing else is held than before, or all the keys are held and owned.
  abbrev pub Answers : (keys : List String) → S → Grant S → Type 0
  Answers keys s (granted t) =
      (find (held s) keys ≡ none)
      × ((key : String) → held t key ≡ (includes keys key || held s key))
      × ((key : String) → includes keys key ≡ true → own t key ≡ true)
  Answers keys s (conflict key t) =
      (find (held s) keys ≡ some key) × ((other : String) → held t other ≡ held s other)

-- `held` is what blocks others, `own` what a release may give up.
pub record IsBackend {S : Type 0} (backend : LockBackend S) : Type 0 where
  pub held : S → String → Bool
  pub own : S → String → Bool
  pub acquires :
      (keys : List String) (s : S)
      → IsDistinct keys
      → includes keys "" ≡ false
      → Answers held own keys s (backend.acquire keys s)
  pub releases :
      (keys : List String) (s : S)
      → IsDistinct keys
      → ((key : String) → includes keys key ≡ true → own s key ≡ true)
      → (key : String) → held (backend.release keys s) key ≡ (held s key && not (includes keys key))

find-none :
    (p : String → Bool) (keys : List String) (key : String)
    → find p keys ≡ none
    → includes keys key ≡ true
    → p key ≡ false
find-none p [] key e k = absurd (ground (arith, k))
find-none p (x ∷ xs) key e k = elim (Bool-cases (p x)) [
  | inl t ↦ absurd (ground (arith, rw t at e))
  | inr t ↦ elim (Bool-cases (x == key)) [
    | inl same ↦ sym (same_key p x key same) ∙ t
    | inr differ ↦ find-none p xs key (rw t at e) (ground (arith, k, differ))
  ]
]

pub find-same :
    (p q : String → Bool) (keys : List String)
    → ((key : String) → p key ≡ q key)
    → find p keys ≡ find q keys
find-same p q [] same = refl
find-same p q (x ∷ xs) same = rw (same x, find-same p q xs same) refl

module _ {S A : Type 0} (backend : LockBackend S) (h : IsBackend backend) (keys : List String)
    (distinct : IsDistinct keys) (work : S → Reply A × S)
    (held_kept : (s : S) (key : String) → h.held (work s).1 key ≡ h.held s key)
    (own_kept : (s : S) (key : String) → h.own (work s).1 key ≡ h.own s key) where
  run_granted-Brackets :
      (s : S) (g : Grant S) (key : String)
      → Answers h.held h.own keys s g
      → h.held (run_granted backend keys work g).1 key ≡ h.held s key
  unfolding run_granted
  run_granted-Brackets s (conflict k t) key a = a.1 key
  run_granted-Brackets s (granted t) key (unheld, taken, owned) = ground (
    arith,
    h.releases keys (work t).1 distinct (λ k i. own_kept t k ∙ owned k i) key,
    held_kept t key,
    taken key,
    find-none (h.held s) keys key unheld,
  )

-- Over a backend that keeps the promise, withIssueAndRepoLock leaves the same keys held as before,
-- whether it is refused or its work returns or throws, if the work leaves the locks alone.
pub with_issue_and_repo_lock-Brackets :
    {S A : Type 0} (backend : LockBackend S) (h : IsBackend backend) (issue_id target_repo : String)
    (work : S → Reply A × S) (s : S) (key : String)
    → ((t : S) (k : String) → h.held (work t).1 k ≡ h.held t k)
    → ((t : S) (k : String) → h.own (work t).1 k ≡ h.own t k)
    → h.held (with_issue_and_repo_lock backend issue_id target_repo work s).1 key ≡ h.held s key
unfolding with_issue_and_repo_lock
with_issue_and_repo_lock-Brackets backend h issue_id target_repo work s key held_kept own_kept =
    let keys = lock_keys issue_id target_repo in
    let distinct = lock_keys-IsDistinct issue_id target_repo in
    run_granted-Brackets backend h keys distinct work held_kept own_kept s (backend.acquire keys s)
      key (h.acquires keys s distinct (lock_keys-full issue_id target_repo))
