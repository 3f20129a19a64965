-- ===== src/Locks/Ownership.antt =====
-- The keys that a request owns, across one step of `withIssueAndRepoLock`.
use vibecoding_dofe_ai.Base.{
  ◌≡◌, ◌∙◌, sym, ap, refl, true, false, ◌||◌, String, List, [], ◌∷◌, ◌++◌, none, some, includes,
  is_some, ◌==◌, nat_eq, string_eq, str_eq_iff, arith, Bool-cases, Option-cases, inl, inr,
}
use vibecoding_dofe_ai.Locks.Backends.{RedisClient, IsRedis}
use vibecoding_dofe_ai.Locks.Keys.{
  IsDistinct, same_key, includes-snoc, differ_sym, lock_keys-IsDistinct,
}
use vibecoding_dofe_ai.Locks.Redis
use vibecoding_dofe_ai.Locks.Sharing.{
  Stage, acquiring, backing_out, working, releasing, deleting, refused, finished, Request, keys_of,
  step, after_set,
}

-- The keys that the request has set and not deleted yet.
abbrev pub owned : Request → Stage → List String
owned request (acquiring acquired todo) = acquired
owned request (backing_out key acquired) = acquired
owned request working = keys_of request
owned request (releasing todo) = todo
owned request (deleting key todo) = key ∷ todo
owned request (refused key) = []
owned request finished = []

-- The lists of a stage have no key twice, and the two of `acquire` make up the keys.
abbrev pub IsShaped : Request → Stage → Type 0
IsShaped request (acquiring acquired todo) =
    IsDistinct todo
    × ((key : String) → includes todo key ≡ true → includes acquired key ≡ false)
    × ((key : String)
        → includes (keys_of request) key ≡ (includes acquired key || includes todo key))
IsShaped request (releasing todo) = IsDistinct todo
IsShaped request (deleting key todo) = IsDistinct (key ∷ todo)
IsShaped request _ = Unit

module _ {S : Type 0} (client : RedisClient S) (redis : IsRedis client) where
  -- What a step of one request does to one key.
  pub data Change (request : Request) (before after : List String) (s t : S) (key : String)
      : Type 0 where
    same :
        client.get key t ≡ client.get key s
        → includes after key ≡ includes before key
        → Change request before after s t key
    taken :
        client.get key s ≡ none
        → client.get key t ≡ some request.options.holder_id
        → includes after key ≡ true
        → Change request before after s t key
    freed :
        includes before key ≡ true
        → client.get key t ≡ none
        → includes after key ≡ false
        → Change request before after s t key

  abbrev pub Changes : Request → Stage → S → Stage × S → Type 0
  Changes request stage s (next, t) =
      (key : String) → Change request (owned request stage) (owned request next) s t key

  module _ (request : Request) where
    pub keys_of-IsDistinct : IsDistinct (keys_of request)
    unfolding keys_of
    keys_of-IsDistinct = lock_keys-IsDistinct request.issue_id request.target_repo

    refused-Change :
        (acquired : List String) (key : String) (todo : List String) (s : S)
        → Changes request
            (acquiring acquired (key ∷ todo))
            s
            (after_set client request false acquired key todo, s)
    refused-Change [] key todo s other = same refl refl
    refused-Change (a ∷ acquired) key todo s other = same refl refl

    set-Changes :
        (acquired : List String) (key : String) (todo : List String) (s : S)
        → client.get key s ≡ none
        → Changes request (acquiring acquired (key ∷ todo)) s (
          acquiring (acquired ++ key ∷ []) todo,
          (client.set_nx key request.options.holder_id request.options.ttl_ms s).1,
        )
    set-Changes acquired key todo s e other = elim (Bool-cases (other == key)) [
      | inl equal ↦
          let at_key = (str_eq_iff other key).0 equal in
          taken (rw at_key e)
            (rw at_key
              ((redis.set_nx_free key request.options.holder_id request.options.ttl_ms s e).1))
            (rw at_key
              (ground (arith, includes-snoc acquired key key, (str_eq_iff key key).1 refl)))
      | inr differ ↦
          same
            (redis.set_nx_other key request.options.holder_id other request.options.ttl_ms s differ)
            (ground (arith, includes-snoc acquired key other, differ_sym other key differ))
    ]

    -- `del` of what is owned, as far as the rest does not name it.
    del-Change :
        (keys rest : List String) (s : S) (key : String)
        → includes keys key ≡ true
        → includes rest key ≡ false
        → Change request keys rest s (client.del keys s) key
    del-Change keys rest s key e f = freed e (redis.del_gone keys key s e) f

    all-Changes :
        (acquired : List String) (key : String) (s : S)
        → Changes request (backing_out key acquired) s (refused key, client.del acquired s)
    all-Changes acquired key s other = elim (Bool-cases (includes acquired other)) [
      | inl e ↦ freed e (redis.del_gone acquired other s e) refl
      | inr e ↦ same (redis.del_other acquired other s e) (sym e)
    ]

    one-Changes :
        (key : String) (todo : List String) (s : S)
        → IsDistinct (key ∷ todo)
        → Changes request (deleting key todo) s (releasing todo, client.del (key ∷ []) s)
    one-Changes key todo s d other = elim (Bool-cases (key == other)) [
      | inl e ↦
          freed (ground (arith, e)) (redis.del_gone (key ∷ []) other s (ground (arith, e)))
            (sym (same_key (includes todo) key other e) ∙ d.0)
      | inr e ↦ same (redis.del_other (key ∷ []) other s (ground (arith, e))) (rw e refl)
    ]

    -- A step, of a request that owns what it has set.
    module _ (s : S) where
      abbrev pub Owns : Stage → Type 0
      Owns stage =
          (key : String)
          → includes (owned request stage) key ≡ true
          → client.get key s ≡ some request.options.holder_id

      own_get :
          (key : String) (todo : List String)
          → Owns (releasing (key ∷ todo))
          → Redis.is_own client request.options (client.get key s) ≡ true
      own_get key todo own =
          rw (own key (ground (arith, (str_eq_iff key key).1 refl)))
            ((str_eq_iff request.options.holder_id request.options.holder_id).1 refl)

      pub step-Changes :
          (stage : Stage)
          → IsShaped request stage
          → Owns stage
          → Changes request stage s (step client request stage s)
      unfolding step
      step-Changes (acquiring acquired []) h own = λ key. same refl (ground (arith, h.2 key))
      step-Changes (acquiring acquired (key ∷ todo)) h own =
          elim (Option-cases (client.get key s)) [
            | inl e ↦
                rw ((redis.set_nx_free key request.options.holder_id request.options.ttl_ms s e).0)
                  (set-Changes acquired key todo s e)
            | inr (v, e) ↦
                rw
                  (redis.set_nx_held key request.options.holder_id request.options.ttl_ms s
                    (ap is_some e))
                  (refused-Change acquired key todo s)
          ]
      step-Changes (backing_out key acquired) h own = all-Changes acquired key s
      step-Changes working h own = λ key. same refl refl
      step-Changes (releasing []) h own = λ key. same refl refl
      step-Changes (releasing (key ∷ todo)) h own =
          rw (own_get key todo own) (λ other. same refl refl)
      step-Changes (deleting key todo) h own = one-Changes key todo s h
      step-Changes (refused key) h own = λ other. same refl refl
      step-Changes finished h own = λ other. same refl refl

      acquiring-IsShaped :
          (acquired : List String) (key : String) (todo : List String)
          → IsShaped request (acquiring acquired (key ∷ todo))
          → IsShaped request (acquiring (acquired ++ key ∷ []) todo)
      acquiring-IsShaped acquired key todo (d, apart, all) = (
        d.1,
        λ other k. elim (Bool-cases (key == other)) [
          | inl e ↦ absurd (ground (arith, same_key (includes todo) key other e, d.0, k))
          | inr e ↦ ground (arith, includes-snoc acquired key other, apart other, e, k)
        ],
        λ other. ground (arith, includes-snoc acquired key other, all other),
      )

      refused-IsShaped :
          (acquired : List String) (key : String) (todo : List String)
          → IsShaped request (after_set client request false acquired key todo)
      refused-IsShaped [] key todo = tt
      refused-IsShaped (a ∷ acquired) key todo = tt

      pub step-IsShaped :
          (stage : Stage)
          → IsShaped request stage
          → Owns stage
          → IsShaped request (step client request stage s).0
      unfolding step
      step-IsShaped (acquiring acquired []) h own = tt
      step-IsShaped (acquiring acquired (key ∷ todo)) h own =
          elim (Option-cases (client.get key s)) [
            | inl e ↦
                rw ((redis.set_nx_free key request.options.holder_id request.options.ttl_ms s e).0)
                  (acquiring-IsShaped acquired key todo h)
            | inr (v, e) ↦
                rw
                  (redis.set_nx_held key request.options.holder_id request.options.ttl_ms s
                    (ap is_some e))
                  (refused-IsShaped acquired key todo)
          ]
      step-IsShaped (backing_out key acquired) h own = tt
      step-IsShaped working h own = keys_of-IsDistinct
      step-IsShaped (releasing []) h own = tt
      step-IsShaped (releasing (key ∷ todo)) h own = rw (own_get key todo own) h
      step-IsShaped (deleting key todo) h own = h.1
      step-IsShaped (refused key) h own = tt
      step-IsShaped finished h own = tt
