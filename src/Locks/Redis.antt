-- ===== src/Locks/Redis.antt =====
-- redis-loops-lock.backend.ts: SET NX PX, and a release that checks the holder.
use vibecoding_dofe_ai.Base.{
  Bool, false, String, List, [], ◌∷◌, ◌++◌, Option, none, some, if◌then◌else◌, ◌==◌, string_eq,
}
use vibecoding_dofe_ai.Locks.Backends.{
  Grant, granted, conflict, LockBackend, RedisClient, RedisOptions,
}

module _ {S : Type 0} (client : RedisClient S) (options : RedisOptions) where
  -- `if (acquired.length > 0)`
  unfoldable pub back_out : (acquired : List String) → S → S
  back_out [] s = s
  back_out (key ∷ keys) s = client.del (key ∷ keys) s

  -- The rest of the loop of `acquire`: `acquired` are the keys that it has set.
  unfoldable pub acquire_rest : (acquired : List String) (todo : List String) → S → Grant S
  acquire_rest acquired [] s = granted s
  acquire_rest acquired (key ∷ todo) s =
      let (set, s') = client.set_nx key options.holder_id options.ttl_ms s in
      let rest = acquire_rest (acquired ++ key ∷ []) todo s' in
      if set then rest else conflict key (back_out acquired s')

  unfoldable pub acquire : List String → S → Grant S
  acquire keys s = acquire_rest [] keys s

  -- `(await this.client.get(key)) === this.holderId`
  abbrev pub is_own : Option String → Bool
  is_own none = false
  is_own (some value) = value == options.holder_id

  unfoldable pub release : List String → S → S
  release [] s = s
  release (key ∷ keys) s =
      release keys (if is_own (client.get key s) then client.del (key ∷ []) s else s)

  abbrev pub backend : LockBackend S
  backend = record { acquire = acquire; release = release }
