-- ===== src/Locks/Sharing.antt =====
-- Requests that share the Redis server, interleaved between any two of its calls:
-- `withIssueAndRepoLock` over `RedisLoopsLockBackend`, one `await` at a time.
use vibecoding_dofe_ai.Base.{
  ℕ, ◌≡◌, Bool, true, false, String, List, [], ◌∷◌, ◌++◌, none, if◌then◌else◌, ◌==◌, nat_eq,
}
use vibecoding_dofe_ai.Locks.Backends.{RedisClient, RedisOptions}
use vibecoding_dofe_ai.Locks.Requests.{lock_keys}
use vibecoding_dofe_ai.Locks.Redis

-- Where a request stands: in the loop of `acquire`, before the `del` of its way out, in its work, in
-- the loop of `release` before a `get` or before a `del`, or at its end.
pub data Stage : Type 0 where
  acquiring : (acquired todo : List String) → Stage
  backing_out : (key : String) (acquired : List String) → Stage
  working : Stage
  releasing : (todo : List String) → Stage
  deleting : (key : String) (todo : List String) → Stage
  refused : (key : String) → Stage
  finished : Stage

pub record Request : Type 0 where
  pub options : RedisOptions
  pub issue_id : String
  pub target_repo : String

unfoldable pub keys_of : Request → List String
keys_of request = lock_keys request.issue_id request.target_repo

module _ {S : Type 0} (client : RedisClient S) (request : Request) where
  -- After `set`: the key was set, or the way out.
  abbrev pub after_set :
      (set : Bool) (acquired : List String) (key : String) (todo : List String) → Stage
  after_set true acquired key todo = acquiring (acquired ++ key ∷ []) todo
  after_set false [] key todo = refused key
  after_set false (a ∷ acquired) key todo = backing_out key (a ∷ acquired)

  -- After `get`: the key is the request's own, or the next one is looked at.
  abbrev pub after_get : (own : Bool) (key : String) (todo : List String) → Stage
  after_get true key todo = deleting key todo
  after_get false key todo = releasing todo

  -- The next step of the request. The end of its work, by a value or by an exception, leads to the
  -- `finally`.
  unfoldable pub step : Stage → S → Stage × S
  unfolding keys_of
  step (acquiring acquired []) s = (working, s)
  step (acquiring acquired (key ∷ todo)) s =
      let (set, s') = client.set_nx key request.options.holder_id request.options.ttl_ms s in
      (after_set set acquired key todo, s')
  step (backing_out key acquired) s = (refused key, client.del acquired s)
  step working s = (releasing (keys_of request), s)
  step (releasing []) s = (finished, s)
  step (releasing (key ∷ todo)) s =
      (after_get (Redis.is_own client request.options (client.get key s)) key todo, s)
  step (deleting key todo) s = (releasing todo, client.del (key ∷ []) s)
  step (refused key) s = (refused key, s)
  step finished s = (finished, s)

-- The server and where each request stands.
pub record System (S : Type 0) : Type 0 where
  pub store : S
  pub stage : ℕ → Stage

abbrev pub set_stage : ℕ → Stage → (ℕ → Stage) → ℕ → Stage
set_stage i next stage j = if j == i then next else stage j

module _ {S : Type 0} (client : RedisClient S) (requests : ℕ → Request) where
  unfoldable pub move : ℕ → System S → System S
  move i system =
      let (next, store) = step client (requests i) (system.stage i) system.store in
      record { store = store; stage = set_stage i next system.stage }

  abbrev pub begin : S → System S
  begin store = record { store = store; stage = λ i. acquiring [] (keys_of (requests i)) }

  -- What is reached from a server that holds no lock, by steps of the requests in any order.
  pub data Reach : System S → Type 0 where
    start : {s : S} → ((key : String) → client.get key s ≡ none) → Reach (begin s)
    later : {system : System S} (i : ℕ) → Reach system → Reach (move i system)
