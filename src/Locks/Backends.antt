-- ===== src/Locks/Backends.antt =====
-- loops-lock-backend.interface.ts, and the client of the Redis server.
use vibecoding_dofe_ai.Base.{
  ℕ, ◌≡◌, Bool, true, false, String, List, Option, none, some, includes, is_some, ◌==◌, string_eq,
}

-- `acquire`: it returns, or throws a ConflictException that names the key.
pub data Grant (S : Type 0) : Type 0 where
  granted : S → Grant S
  conflict : (key : String) → S → Grant S

-- `LoopsLockBackend`; `S` is what the backend keeps.
pub record LockBackend (S : Type 0) : Type 0 where
  pub acquire : List String → S → Grant S
  pub release : List String → S → S

-- `LoopsLockRedisClient`: `S` is what the server keeps. `set_nx` answers whether the key was set.
pub record RedisClient (S : Type 0) : Type 0 where
  pub set_nx : (key value : String) (ttl_ms : ℕ) → S → Bool × S
  pub get : (key : String) → S → Option String
  pub del : List String → S → S

-- What SET NX, GET and DEL are documented to do, as long as no key expires.
pub record IsRedis {S : Type 0} (client : RedisClient S) : Type 0 where
  pub set_nx_free :
      (key value : String) (ttl_ms : ℕ) (s : S)
      → client.get key s ≡ none
      → ((client.set_nx key value ttl_ms s).0 ≡ true)
        × (client.get key (client.set_nx key value ttl_ms s).1 ≡ some value)
  pub set_nx_held :
      (key value : String) (ttl_ms : ℕ) (s : S)
      → is_some (client.get key s) ≡ true
      → client.set_nx key value ttl_ms s ≡ (false, s)
  pub set_nx_other :
      (key value other : String) (ttl_ms : ℕ) (s : S)
      → (other == key) ≡ false
      → client.get other (client.set_nx key value ttl_ms s).1 ≡ client.get other s
  pub del_gone :
      (keys : List String) (key : String) (s : S)
      → includes keys key ≡ true
      → client.get key (client.del keys s) ≡ none
  pub del_other :
      (keys : List String) (key : String) (s : S)
      → includes keys key ≡ false
      → client.get key (client.del keys s) ≡ client.get key s

-- `RedisLoopsLockOptions`, with the defaults filled in.
pub record RedisOptions : Type 0 where
  pub ttl_ms : ℕ
  pub holder_id : String
