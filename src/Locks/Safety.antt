-- ===== src/Locks/Safety.antt =====
-- Mutual exclusion of the work under the lock, and what is left on the server at the end.
use vibecoding_dofe_ai.Base.{
  ℕ, ◌≡◌, ◌⊎◌, ap, refl, Bool, true, false, String, [], ◌∷◌, none, includes, is_some, arith,
  Option-cases, inl, inr,
}
use vibecoding_dofe_ai.Locks.Backends.{RedisClient, IsRedis}
use vibecoding_dofe_ai.Locks.Keys.{issue_key, repo_key, includes-issue_key, includes-repo_key}
use vibecoding_dofe_ai.Locks.Sharing.{
  Stage, acquiring, backing_out, working, releasing, deleting, refused, finished, Request, keys_of,
  System, Reach,
}
use vibecoding_dofe_ai.Locks.Ownership.{owned}
use vibecoding_dofe_ai.Locks.Exclusion.{Reach-IsExclusive}

-- The request has not set a key yet, or has ended.
abbrev pub is_outside : Stage → Bool
is_outside (acquiring [] todo) = true
is_outside (refused key) = true
is_outside finished = true
is_outside _ = false

outside_owned :
    (request : Request) (stage : Stage) → is_outside stage ≡ true → owned request stage ≡ []
outside_owned request (acquiring [] todo) h = refl
outside_owned request (acquiring (key ∷ acquired) todo) h = absurd (ground (arith, h))
outside_owned request (backing_out key acquired) h = absurd (ground (arith, h))
outside_owned request working h = absurd (ground (arith, h))
outside_owned request (releasing todo) h = absurd (ground (arith, h))
outside_owned request (deleting key todo) h = absurd (ground (arith, h))
outside_owned request (refused key) h = refl
outside_owned request finished h = refl

module _ {S : Type 0} (client : RedisClient S) (redis : IsRedis client)
    (requests : ℕ → Request) where
  shared_key :
      {system : System S} (i j : ℕ) (key : String)
      → Reach client requests system
      → system.stage i ≡ working
      → system.stage j ≡ working
      → includes (keys_of (requests i)) key ≡ true
      → includes (keys_of (requests j)) key ≡ true
      → i ≡ j
  shared_key i j key reach e f k l =
      (Reach-IsExclusive client redis requests reach).apart i j key (rw e k) (rw f l)

  -- Where requests over the Redis backend are interleaved between any two calls of the server and
  -- no key expires, two that are at work at once, for one issue or for one repository, are the same
  -- request.
  pub Reach-excludes :
      (system : System S) (i j : ℕ)
      → Reach client requests system
      → system.stage i ≡ working
      → system.stage j ≡ working
      → ((requests i).issue_id ≡ (requests j).issue_id)
        ⊎ ((requests i).target_repo ≡ (requests j).target_repo)
      → i ≡ j
  unfolding keys_of issue_key repo_key
  Reach-excludes system i j reach e f (inl same) =
      let a = requests i in
      let b = requests j in
      shared_key i j (issue_key a.issue_id a.target_repo) reach e f
        (includes-issue_key a.issue_id a.target_repo)
        (rw same (includes-issue_key b.issue_id b.target_repo))
  Reach-excludes system i j reach e f (inr same) =
      let a = requests i in
      let b = requests j in
      shared_key i j (repo_key a.issue_id a.target_repo) reach e f
        (includes-repo_key a.issue_id a.target_repo)
        (rw same (includes-repo_key b.issue_id b.target_repo))

  -- Where requests over the Redis backend are interleaved between any two calls of the server and
  -- no key expires, no key is left on the server once each request has ended, refused or finished,
  -- or has not set a key yet.
  pub Reach-leaves_none :
      (system : System S) (key : String)
      → Reach client requests system
      → ((i : ℕ) → is_outside (system.stage i) ≡ true)
      → client.get key system.store ≡ none
  Reach-leaves_none system key reach outside = elim (Option-cases (client.get key system.store)) [
    | inl e ↦ e
    | inr (v, e) ↦
        let (i, k) = (Reach-IsExclusive client redis requests reach).held key (ap is_some e) in
        absurd (ground (arith, rw (outside_owned (requests i) (system.stage i) (outside i)) at k))
  ]
