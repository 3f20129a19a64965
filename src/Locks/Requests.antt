-- ===== src/Locks/Requests.antt =====
-- loops-work-lock.service.ts: work under the lock of an issue and its repository.
use Prim.Native.Nat.{Ordering}
use Prim.Native.String.{compare}
use vibecoding_dofe_ai.Base.{String, List, [], ◌∷◌, concat}
use vibecoding_dofe_ai.Store.{Error, Reply, answer, refusal}
use vibecoding_dofe_ai.Locks.Backends.{Grant, granted, conflict, LockBackend}

-- `[a, b].sort()`, by code points
abbrev pub sorted : Ordering → String → String → List String
sorted Ordering.gt a b = b ∷ a ∷ []
sorted _ a b = a ∷ b ∷ []

unfoldable pub lock_keys : (issue_id target_repo : String) → List String
lock_keys issue_id target_repo =
    let issue = concat ("issue:" ∷ issue_id ∷ []) in
    let repo = concat ("repo:" ∷ target_repo ∷ []) in sorted (compare issue repo) issue repo

-- How work under the lock ends: it returns, it throws, or the lock was held.
pub data Ending (A : Type 0) : Type 0 where
  returned : A → Ending A
  threw : Error → Ending A
  busy : (key : String) → Ending A

abbrev pub ending : {A : Type 0} → Reply A → Ending A
ending (answer a) = returned a
ending (refusal e) = threw e

-- The `try` and its `finally`, behind `acquire`.
unfoldable pub run_granted :
    {S A : Type 0}
    → LockBackend S
    → (keys : List String) → (work : S → Reply A × S) → Grant S
    → Ending A × S
run_granted backend keys work (conflict key s) = (busy key, s)
run_granted backend keys work (granted s) =
    let (reply, s') = work s in (ending reply, backend.release keys s')

unfoldable pub with_issue_and_repo_lock :
    {S A : Type 0}
    → LockBackend S
    → (issue_id target_repo : String) → (work : S → Reply A × S) → S
    → Ending A × S
unfolding run_granted
with_issue_and_repo_lock backend issue_id target_repo work s =
    let keys = lock_keys issue_id target_repo in
    run_granted backend keys work (backend.acquire keys s)
