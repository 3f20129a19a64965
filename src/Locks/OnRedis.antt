-- ===== src/Locks/OnRedis.antt =====
-- redis-loops-lock.backend.ts against the promise of a backend, on a server where no key expires.
use vibecoding_dofe_ai.Base.{
  ◌≡◌, ◌∙◌, sym, ap, refl, Bool, true, false, not, ◌&&◌, ◌||◌, String, List, [], ◌∷◌, ◌++◌, none,
  some, find, includes, is_some, if◌then◌else◌, ◌==◌, string_eq, str_eq_iff, arith, Bool-cases,
  Option-cases, inl, inr,
}
use vibecoding_dofe_ai.Locks.Backends.{Grant, granted, conflict, RedisClient, RedisOptions, IsRedis}
use vibecoding_dofe_ai.Locks.Keys.{IsDistinct, same_key, includes-snoc, differ_sym}
use vibecoding_dofe_ai.Locks.Promise.{Answers, IsBackend}
use vibecoding_dofe_ai.Locks.Redis

module _ {S : Type 0} (client : RedisClient S) (options : RedisOptions)
    (redis : IsRedis client) where
  abbrev pub held : S → String → Bool
  held s key = is_some (client.get key s)

  abbrev pub own : S → String → Bool
  own s key = Redis.is_own client options (client.get key s)

  -- The values of the keys, where some have been set.
  abbrev IsWritten : (taken : String → Bool) → (s t : S) → Type 0
  IsWritten taken s t =
      (key : String)
      → client.get key t ≡ (if taken key then some options.holder_id else client.get key s)

  abbrev Rest : (acquired todo : List String) → S → Grant S → Type 0
  Rest acquired todo s (granted t) =
      (find (held s) todo ≡ none)
      × IsWritten (λ key. includes acquired key || includes todo key) s t
  Rest acquired todo s (conflict key t) =
      (find (held s) todo ≡ some key) × ((other : String) → client.get other t ≡ client.get other s)

  -- The loop of `acquire` between two keys.
  record IsUnderWay (acquired todo : List String) (s t : S) : Type 0 where
    set : IsWritten (includes acquired) s t
    free : (key : String) → includes acquired key ≡ true → client.get key s ≡ none
    apart : (key : String) → includes todo key ≡ true → includes acquired key ≡ false

  back_out_lem :
      (acquired todo : List String) (s t : S)
      → IsUnderWay acquired todo s t
      → (key : String)
      → client.get key (Redis.back_out client options acquired t) ≡ client.get key s
  unfolding Redis.back_out
  back_out_lem [] todo s t h key = h.set key
  back_out_lem (a ∷ acquired) todo s t h key = elim (Bool-cases (includes (a ∷ acquired) key)) [
    | inl e ↦ redis.del_gone (a ∷ acquired) key t e ∙ sym (h.free key e)
    | inr e ↦ redis.del_other (a ∷ acquired) key t e ∙ (h.set key ∙ rw e refl)
  ]

  module _ (acquired : List String) (key : String) where
    snoc_own : includes (acquired ++ key ∷ []) key ≡ true
    snoc_own = ground (arith, includes-snoc acquired key key, (str_eq_iff key key).1 refl)

    snoc_other :
        (other : String)
        → (other == key) ≡ false
        → includes (acquired ++ key ∷ []) other ≡ includes acquired other
    snoc_other other differ =
        ground (arith, includes-snoc acquired key other, differ_sym other key differ)

    module _ (todo : List String) (s t : S) (h : IsUnderWay acquired (key ∷ todo) s t) where
      set_next :
          client.get key t ≡ none
          → IsWritten
              (includes (acquired ++ key ∷ []))
              s
              (client.set_nx key options.holder_id options.ttl_ms t).1
      set_next f other = elim (Bool-cases (other == key)) [
        | inl same ↦
            rw ((str_eq_iff other key).0 same, snoc_own)
              (redis.set_nx_free key options.holder_id options.ttl_ms t f).1
        | inr differ ↦
            rw (snoc_other other differ)
              (redis.set_nx_other key options.holder_id other options.ttl_ms t differ ∙ h.set other)
      ]

      free_next :
          client.get key s ≡ none
          → (other : String) → includes (acquired ++ key ∷ []) other ≡ true
          → client.get other s ≡ none
      free_next e other k = elim (Bool-cases (other == key)) [
        | inl same ↦ rw ((str_eq_iff other key).0 same) e
        | inr differ ↦ h.free other (sym (snoc_other other differ) ∙ k)
      ]

      apart_next :
          IsDistinct (key ∷ todo)
          → (other : String) → includes todo other ≡ true
          → includes (acquired ++ key ∷ []) other ≡ false
      apart_next d other k = elim (Bool-cases (other == key)) [
        | inl same ↦ absurd (ground (arith, same_key (includes todo) other key same, d.0, k))
        | inr differ ↦ snoc_other other differ ∙ h.apart other (ground (arith, k))
      ]

      next_free : IsDistinct (key ∷ todo) → client.get key t ≡ client.get key s
      next_free d = h.set key ∙ rw (h.apart key (ground (arith, (str_eq_iff key key).1 refl))) refl

  -- What the rest of the loop makes of the other keys, with the one that was set.
  widen :
      (acquired todo : List String) (key : String) (s : S) (g : Grant S)
      → client.get key s ≡ none
      → Rest (acquired ++ key ∷ []) todo s g
      → Rest acquired (key ∷ todo) s g
  widen acquired todo key s (granted t) e h = (
    rw e (h.0),
    λ other.
        h.1 other
        ∙ ap (λ b. if b then some options.holder_id else client.get other s)
            (ground (arith, includes-snoc acquired key other)),
  )
  widen acquired todo key s (conflict k t) e h = (rw e (h.0), h.1)

  acquire_rest-Rest :
      (acquired todo : List String) (s t : S)
      → IsUnderWay acquired todo s t
      → IsDistinct todo
      → Rest acquired todo s (Redis.acquire_rest client options acquired todo t)
  unfolding Redis.acquire_rest
  acquire_rest-Rest acquired [] s t h d = (
    refl,
    λ key.
        h.set key ∙ ap (λ b. if b then some options.holder_id else client.get key s) (ground arith),
  )
  acquire_rest-Rest acquired (key ∷ todo) s t h d = elim (Option-cases (client.get key s)) [
    | inl e ↦
        let free = next_free acquired key todo s t h d ∙ e in
        rw ((redis.set_nx_free key options.holder_id options.ttl_ms t free).0) (
          widen acquired todo key s _ e (
            acquire_rest-Rest (acquired ++ key ∷ []) todo s
              (client.set_nx key options.holder_id options.ttl_ms t).1
              (record {
                set = set_next acquired key todo s t h free;
                free = free_next acquired key todo s t h e;
                apart = apart_next acquired key todo s t h d;
              })
              d.1))
    | inr (v, e) ↦
        rw
          (redis.set_nx_held key options.holder_id options.ttl_ms t
            (ap is_some (next_free acquired key todo s t h d ∙ e)))
          (rw e refl, back_out_lem acquired (key ∷ todo) s t h)
  ]

  Rest-Answers :
      (keys : List String) (s : S) (g : Grant S) → Rest [] keys s g → Answers held own keys s g
  Rest-Answers keys s (granted t) h = (
    h.0,
    λ key. elim (Bool-cases (includes keys key)) [
      | inl e ↦ rw (h.1 key, e) refl
      | inr e ↦ rw (h.1 key, e) refl
    ],
    λ key k. rw (h.1 key, k) ((str_eq_iff options.holder_id options.holder_id).1 refl),
  )
  Rest-Answers keys s (conflict key t) h = (h.0, λ other. ap is_some (h.1 other))

  -- On a Redis server where no key expires, acquire of keys that differ is all or nothing: it is
  -- refused with the first of the keys that was held, and the same keys are held as before, or none
  -- of them was held, and then they are held and owned besides those that were.
  pub acquire-Answers :
      (keys : List String) (s : S)
      → IsDistinct keys
      → Answers held own keys s (Redis.acquire client options keys s)
  unfolding Redis.acquire
  acquire-Answers keys s d = Rest-Answers keys s (Redis.acquire_rest client options [] keys s) (
      acquire_rest-Rest [] keys s s
        (record {
          set = λ key. refl;
          free = λ key k. absurd (ground (arith, k));
          apart = λ key k. refl;
        })
        d)

  del_one :
      (key : String) (s : S) (other : String)
      → client.get other (client.del (key ∷ []) s)
        ≡ (if key == other then none else client.get other s)
  del_one key s other = elim (Bool-cases (key == other)) [
    | inl e ↦ rw e (redis.del_gone (key ∷ []) other s (ground (arith, e)))
    | inr e ↦ rw e (redis.del_other (key ∷ []) other s (ground (arith, e)))
  ]

  held_del :
      (key : String) (s : S) (other : String)
      → held (client.del (key ∷ []) s) other ≡ (held s other && not (key == other))
  held_del key s other = elim (Bool-cases (key == other)) [
    | inl e ↦ rw (del_one key s other, e) (ground arith)
    | inr e ↦ rw (del_one key s other, e) (ground arith)
  ]

  own_del :
      (key : String) (keys : List String) (s : S) (other : String)
      → includes keys key ≡ false
      → includes keys other ≡ true
      → own s other ≡ true
      → own (client.del (key ∷ []) s) other ≡ true
  own_del key keys s other d k h = elim (Bool-cases (key == other)) [
    | inl e ↦ absurd (ground (arith, same_key (includes keys) key other e, d, k))
    | inr e ↦ rw (del_one key s other, e) h
  ]

  pub release_lem :
      (keys : List String) (s : S)
      → IsDistinct keys
      → ((key : String) → includes keys key ≡ true → own s key ≡ true)
      → (key : String)
      → held (Redis.release client options keys s) key ≡ (held s key && not (includes keys key))
  unfolding Redis.release
  release_lem [] s d h key = ground arith
  release_lem (k ∷ keys) s d h key = rw (h k (ground (arith, (str_eq_iff k k).1 refl))) (
      release_lem keys (client.del (k ∷ []) s) d.1
        (λ other o. own_del k keys s other d.0 o (h other (ground (arith, o)))) key
      ∙ ground (arith, held_del k s key))

  abbrev pub redis-IsBackend : IsBackend (Redis.backend client options)
  redis-IsBackend = record {
    held = held;
    own = own;
    acquires = λ keys s d full. acquire-Answers keys s d;
    releases = release_lem;
  }
