-- ===== src/Locks/Exclusion.antt =====
-- Which request owns which key, across every interleaving.
use vibecoding_dofe_ai.Base.{
  ℕ, ◌≡◌, ◌∙◌, sym, ap, refl, Bool, true, false, String, none, some, includes, is_some, ◌==◌,
  nat_eq, same_number_iff, string_eq, arith, Bool-cases, inl, inr,
}
use vibecoding_dofe_ai.Locks.Backends.{RedisClient, IsRedis}
use vibecoding_dofe_ai.Locks.Sharing.{
  Stage, Request, step, System, set_stage, move, begin, Reach, start, later,
}
use vibecoding_dofe_ai.Locks.Ownership.{
  owned, IsShaped, Change, same, taken, freed, Changes, step-Changes, step-IsShaped,
  keys_of-IsDistinct,
}

module _ {S : Type 0} (client : RedisClient S) (redis : IsRedis client)
    (requests : ℕ → Request) where
  abbrev owns : (ℕ → Stage) → ℕ → String → Bool
  owns stage i key = includes (owned (requests i) (stage i)) key

  pub record IsExclusive (s : S) (stage : ℕ → Stage) : Type 0 where
    own :
        (i : ℕ) (key : String)
        → owns stage i key ≡ true
        → client.get key s ≡ some (requests i).options.holder_id
    pub apart : (i j : ℕ) (key : String) → owns stage i key ≡ true → owns stage j key ≡ true → i ≡ j
    pub held :
        (key : String) → is_some (client.get key s) ≡ true → (i : ℕ) × (owns stage i key ≡ true)
    pub shaped : (i : ℕ) → IsShaped (requests i) (stage i)

  module _ (i : ℕ) (s t : S) (stage : ℕ → Stage) (next : Stage) (h : IsExclusive s stage)
      (changes : Changes client redis (requests i) (stage i) s (next, t))
      (shape : IsShaped (requests i) next) where
    abbrev moved : ℕ → Stage
    moved = set_stage i next stage

    own_next :
        (key : String)
        → Change client redis
            (requests i)
            (owned (requests i) (stage i))
            (owned (requests i) next)
            s
            t
            key
        → includes (owned (requests i) next) key ≡ true
        → client.get key t ≡ some (requests i).options.holder_id
    own_next key (same e f) k = e ∙ h.own i key (sym f ∙ k)
    own_next key (taken e f g) k = f
    own_next key (freed e f g) k = absurd (ground (arith, g, k))

    other_next :
        (j : ℕ) (key : String)
        → (j == i) ≡ false
        → Change client redis
            (requests i)
            (owned (requests i) (stage i))
            (owned (requests i) next)
            s
            t
            key
        → owns stage j key ≡ true
        → client.get key t ≡ some (requests j).options.holder_id
    other_next j key differ (same e f) k = e ∙ h.own j key k
    other_next j key differ (taken e f g) k = absurd (ground (arith, h.own j key k, e))
    other_next j key differ (freed e f g) k = absurd (ground (arith, h.apart j i key k e, differ))

    apart_next :
        (j : ℕ) (key : String)
        → Change client redis
            (requests i)
            (owned (requests i) (stage i))
            (owned (requests i) next)
            s
            t
            key
        → includes (owned (requests i) next) key ≡ true
        → owns stage j key ≡ true
        → j ≡ i
    apart_next j key (same e f) k l = h.apart j i key l (sym f ∙ k)
    apart_next j key (taken e f g) k l = absurd (ground (arith, h.own j key l, e))
    apart_next j key (freed e f g) k l = absurd (ground (arith, g, k))

    is_same : (j : ℕ) → (j == i) ≡ true → j ≡ i
    is_same j e = (same_number_iff j i).0 e

    own_at :
        (j : ℕ) (key : String)
        → owns moved j key ≡ true
        → client.get key t ≡ some (requests j).options.holder_id
    own_at j key = elim (Bool-cases (j == i)) [
      | inl e ↦ rw (e, is_same j e) (own_next key (changes key))
      | inr e ↦ rw e (other_next j key e (changes key))
    ]

    apart_at : (j l : ℕ) (key : String) → owns moved j key ≡ true → owns moved l key ≡ true → j ≡ l
    apart_at j l key = elim (Bool-cases (j == i)) [
      | inl e ↦ elim (Bool-cases (l == i)) [
        | inl f ↦ λ p q. is_same j e ∙ sym (is_same l f)
        | inr f ↦ rw (e, f, is_same j e) (λ p q. sym (apart_next l key (changes key) p q))
      ]
      | inr e ↦ elim (Bool-cases (l == i)) [
        | inl f ↦ rw (e, f, is_same l f) (λ p q. apart_next j key (changes key) q p)
        | inr f ↦ rw (e, f) (h.apart j l key)
      ]
    ]

    moved_own :
        (key : String) → includes (owned (requests i) next) key ≡ true → owns moved i key ≡ true
    moved_own key k = rw ((same_number_iff i i).1 refl) k

    kept_own :
        (j : ℕ) (key : String)
        → includes (owned (requests i) next) key ≡ includes (owned (requests i) (stage i)) key
        → owns stage j key ≡ true
        → (l : ℕ) × (owns moved l key ≡ true)
    kept_own j key e k = elim (Bool-cases (j == i)) [
      | inl f ↦ (i, moved_own key (e ∙ (rw (is_same j f) at k)))
      | inr f ↦ (j, rw f k)
    ]

    held_next :
        (key : String)
        → Change client redis
            (requests i)
            (owned (requests i) (stage i))
            (owned (requests i) next)
            s
            t
            key
        → is_some (client.get key t) ≡ true
        → (j : ℕ) × (owns moved j key ≡ true)
    held_next key (same e f) k =
        let (j, p) = h.held key (sym (ap is_some e) ∙ k) in kept_own j key f p
    held_next key (taken e f g) k = (i, moved_own key g)
    held_next key (freed e f g) k = absurd (ground (arith, f, k))

    shape_at : (j : ℕ) → IsShaped (requests j) (moved j)
    shape_at j = elim (Bool-cases (j == i)) [
      | inl e ↦ rw (e, is_same j e) shape
      | inr e ↦ rw e (h.shaped j)
    ]

    moved-IsExclusive : IsExclusive t moved
    moved-IsExclusive = record {
      own = own_at;
      apart = apart_at;
      held = λ key k. held_next key (changes key) k;
      shaped = shape_at;
    }

  begin-IsExclusive :
      (s : S)
      → ((key : String) → client.get key s ≡ none)
      → IsExclusive s (begin client requests s).stage
  begin-IsExclusive s free = record {
    own = λ i key k. absurd (ground (arith, k));
    apart = λ i j key k l. absurd (ground (arith, k));
    held = λ key k. absurd (ground (arith, free key, k));
    shaped = λ i. (keys_of-IsDistinct client redis (requests i), λ key k. refl, λ key. refl);
  }

  pub Reach-IsExclusive :
      {system : System S} → Reach client requests system → IsExclusive system.store system.stage
  unfolding move
  Reach-IsExclusive (start free) = begin-IsExclusive _ free
  Reach-IsExclusive (later {system} i reach) =
      let h = Reach-IsExclusive reach in
      let stage = system.stage i in
      moved-IsExclusive i system.store (step client (requests i) stage system.store).1 system.stage
        (step client (requests i) stage system.store).0 h
        (step-Changes client redis (requests i) system.store stage (h.shaped i) (h.own i))
        (step-IsShaped client redis (requests i) system.store stage (h.shaped i) (h.own i))
