-- ===== src/Examples/Locks.antt =====
-- The theorems on the work lock, on a server that keeps its keys in a list.
use vibecoding_dofe_ai.Base.{
  ℕ, zero, suc, ◌≡◌, refl, true, false, String, List, [], ◌∷◌, ◌==◌, nat_eq, arith, none, includes,
  inr,
}
use vibecoding_dofe_ai.Store.{Reply, answer}
use vibecoding_dofe_ai.Locks.{with_issue_and_repo_lock}
use vibecoding_dofe_ai.Locks.Memory
use vibecoding_dofe_ai.Locks.Redis
use vibecoding_dofe_ai.Locks.Promise.{Answers, with_issue_and_repo_lock-Brackets}
use vibecoding_dofe_ai.Locks.InMemory.{memory-IsBackend}
use vibecoding_dofe_ai.Locks.OnRedis.{redis-IsBackend, held, own, acquire-Answers}
use vibecoding_dofe_ai.Locks.Refinement.{with_issue_and_repo_lock-Refines}
use vibecoding_dofe_ai.Locks.Safety.{Reach-excludes, Reach-leaves_none, is_outside}
use vibecoding_dofe_ai.Locks.{lock_keys}
use vibecoding_dofe_ai.Locks.Sharing.{move, step, keys_of, working, refused}
use vibecoding_dofe_ai.Samples.Locks.{
  Shelf, shelf_client, shelf_get, shelf-IsRedis, sample_options, sample_requests, run_moves,
  run_moves-Reach, one_works, one_ended,
}

abbrev two_keys : List String
two_keys = "issue:issue-2" ∷ "repo:web" ∷ []

-- The repository is held by another request.
abbrev busy_shelf : Shelf
busy_shelf = ("repo:web", "loops-2") ∷ []

-- Work that answers at once.
abbrev quick_work : {S : Type 0} → S → Reply ℕ × S
quick_work s = (answer 7, s)

acquire_example :
    Answers
      (held shelf_client sample_options shelf-IsRedis)
      (own shelf_client sample_options shelf-IsRedis)
      two_keys
      busy_shelf
      (Redis.acquire shelf_client sample_options two_keys busy_shelf)
acquire_example =
    acquire-Answers shelf_client sample_options shelf-IsRedis two_keys busy_shelf (refl, (refl, tt))

brackets_example :
    held shelf_client sample_options shelf-IsRedis
      (with_issue_and_repo_lock
        (Redis.backend shelf_client sample_options)
        "issue-2"
        "api"
        quick_work
        busy_shelf).1
      "repo:web"
    ≡ true
brackets_example =
    with_issue_and_repo_lock-Brackets (Redis.backend shelf_client sample_options)
      (redis-IsBackend shelf_client sample_options shelf-IsRedis) "issue-2" "api" quick_work
      busy_shelf "repo:web" (λ t k. refl) (λ t k. refl)

refines_example :
    ((with_issue_and_repo_lock Memory.backend "issue-2" "api" quick_work []).0
      ≡ (with_issue_and_repo_lock
          (Redis.backend shelf_client sample_options)
          "issue-2"
          "api"
          quick_work
          []).0)
    × ((key : String)
        → includes (with_issue_and_repo_lock Memory.backend "issue-2" "api" quick_work []).1 key
          ≡ held shelf_client sample_options shelf-IsRedis
              (with_issue_and_repo_lock
                (Redis.backend shelf_client sample_options)
                "issue-2"
                "api"
                quick_work
                []).1
              key)
refines_example =
    with_issue_and_repo_lock-Refines Memory.backend (Redis.backend shelf_client sample_options)
      memory-IsBackend (redis-IsBackend shelf_client sample_options shelf-IsRedis) "issue-2" "api"
      quick_work quick_work [] [] (λ key. refl) (λ u v. refl) (λ u k. refl) (λ u k. refl)
      (λ u k. refl) (λ u k. refl)

first_works : (run_moves one_works).stage zero ≡ working
unfolding move step keys_of lock_keys
first_works = refl

second_refused : (run_moves one_works).stage (suc zero) ≡ refused "repo:web"
unfolding move step keys_of lock_keys
second_refused = refl

later_differs : (i : ℕ) → (suc i == 0) ≡ false
later_differs i = ground arith

all_outside : (i : ℕ) → is_outside ((run_moves one_ended).stage i) ≡ true
unfolding move step keys_of lock_keys
all_outside zero = refl
all_outside (suc i) = rw (later_differs i) refl

excludes_example : zero ≡ zero
excludes_example =
    Reach-excludes shelf_client shelf-IsRedis sample_requests (run_moves one_works) zero zero
      (run_moves-Reach one_works) first_works first_works (inr refl)

leaves_none_example : shelf_get "repo:web" (run_moves one_ended).store ≡ none
leaves_none_example =
    Reach-leaves_none shelf_client shelf-IsRedis sample_requests (run_moves one_ended) "repo:web"
      (run_moves-Reach one_ended) all_outside
