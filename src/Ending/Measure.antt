-- ===== src/Ending/Measure.antt =====
-- What a round uses up: the shards that can still be blocked. Shards of one id are blocked and put
-- back together, so a shard counts as long as one of its id is not BLOCKED.
use vibecoding_dofe_ai.Base.{
  ℕ, ◌≡◌, ◌≤◌, ◌<◌, refl, Bool, true, false, not, ◌&&◌, ◌||◌, String, List, [], ◌∷◌, map, some,
  find, any, count, ◌==◌, string_eq, str_eq_iff, arith, count-le-length, length, find-passes,
  Bool-cases, inl, inr, any-map, any-map-never, if◌then◌else◌, any-filter, any-or, sym,
  find-any-other,
}
use vibecoding_dofe_ai.Schema.{Shard, blocked, is_blocked, is_open, is_interrupted}
use vibecoding_dofe_ai.Engine.{
  set_status, with_status, recovered_shard, interrupted, find_runnable_shard, is_runnable,
}

abbrev is_live : String → Shard → Bool
is_live id t = t.id == id && not (is_blocked t.status)

abbrev pub live : String → List Shard → Bool
live id shards = any (is_live id) shards

abbrev pub left : List Shard → ℕ
left shards = count (λ s. live s.id shards) shards

pub left-le-length : (shards : List Shard) → left shards ≤ length shards
left-le-length shards = count-le-length (λ s. live s.id shards) shards

module _ (f : Shard → Shard) (p q : String → Bool) (same : (s : Shard) → (f s).id ≡ s.id)
    (down : (id : String) → p id ≡ true → q id ≡ true) where
  count-map-le : (xs : List Shard) → count (λ s. p s.id) (map f xs) ≤ count (λ s. q s.id) xs
  count-map-le [] = omega arith
  count-map-le (x ∷ xs) = rw (same x) (ground (arith, count-map-le xs, down x.id))

  -- Fewer, if the id of one of the shards is given up.
  count-map-lt :
      (test : Shard → Bool) (xs : List Shard) (s : Shard)
      → find test xs ≡ some s
      → p s.id ≡ false
      → q s.id ≡ true
      → count (λ s. p s.id) (map f xs) < count (λ s. q s.id) xs
  count-map-lt test [] s e gone held = ground arith
  count-map-lt test (x ∷ xs) s e gone held = rw (same x) (elim (Bool-cases (test x)) [
    | inl t ↦ ground (arith, count-map-le xs, t, e)
    | inr t ↦ ground (arith, count-map-lt test xs s, t, e, down x.id)
  ])

module _ (k : String) where
  live-blocked :
      (id : String) (xs : List Shard) → live id (set_status k blocked xs) ≡ true → live id xs ≡ true
  unfolding set_status
  live-blocked id xs =
      any-map (with_status k blocked) (is_live id) (is_live id) xs (λ s. ground arith)

  blocked-never : (s : Shard) → is_live k (with_status k blocked s) ≡ false
  blocked-never s = elim (Bool-cases (s.id == k)) [
    | inl e ↦ rw e (ground arith)
    | inr e ↦ rw e (ground arith)
  ]

  dead-blocked : (xs : List Shard) → live k (set_status k blocked xs) ≡ false
  unfolding set_status
  dead-blocked xs = any-map-never (with_status k blocked) (is_live k) xs blocked-never

open_unblocked : (s : Shard) → is_open s.status ≡ true → is_blocked s.status ≡ false
open_unblocked s h = ground arith

is_live-own : (s : Shard) → is_blocked s.status ≡ false → is_live s.id s ≡ true
is_live-own s h = rw (h, (str_eq_iff s.id s.id).1 refl) refl

-- A runnable shard that is blocked is used up.
pub left-blocked :
    (shards : List Shard) (s : Shard)
    → find_runnable_shard shards ≡ some s
    → left (set_status s.id blocked shards) < left shards
unfolding find_runnable_shard set_status is_runnable
left-blocked shards s e =
    let ready = find-passes (is_runnable shards) shards s e in
    count-map-lt (with_status s.id blocked) (λ id. live id (set_status s.id blocked shards))
      (λ id. live id shards) (λ t. ground arith) (λ id. live-blocked s.id id shards)
      (is_runnable shards) shards s e (dead-blocked s.id shards)
      (find-any-other (is_runnable shards) (is_live s.id) shards s e
        (is_live-own s (open_unblocked s (ground (arith, ready)))))

-- A shard that is put back was not blocked, or has a shard of its id that was interrupted.
interrupted-live :
    (id : String) (xs : List Shard)
    → any (λ (item : Shard). item.id == id) (interrupted xs) ≡ true
    → live id xs ≡ true
unfolding interrupted
interrupted-live id xs =
    any-filter (λ (item : Shard). item.id == id) (λ shard. is_interrupted shard.status) (is_live id)
      xs (λ x e i. rw e (ground (arith, i)))

put_back-live :
    (xs : List Shard) (id : String) (s : Shard)
    → live s.id xs ≡ true
    → (s.id == id) ≡ true
    → live id xs ≡ true
put_back-live xs id s h e = rw (sym ((str_eq_iff s.id id).0 e)) h

module _ (xs : List Shard) (id : String) where
  recovered-live :
      (s : Shard)
      → is_live id (recovered_shard (interrupted xs) s) ≡ true
      → (is_live id s || live id xs) ≡ true
  recovered-live s h =
      elim (Bool-cases (any (λ (item : Shard). item.id == s.id) (interrupted xs))) [
        | inl e ↦ ground (arith, put_back-live xs id s (interrupted-live s.id xs e), rw e at h)
        | inr e ↦ ground (arith, rw e at h)
      ]

  live-recovered : live id (map (recovered_shard (interrupted xs)) xs) ≡ true → live id xs ≡ true
  live-recovered h = ground (
    arith,
    any-or (is_live id) (live id xs) xs (
        any-map (recovered_shard (interrupted xs)) (is_live id) (λ s. is_live id s || live id xs) xs
          recovered-live h),
  )

-- The recovery of interrupted shards gives no id anew to be blocked.
pub left-recovered :
    (shards : List Shard) → left (map (recovered_shard (interrupted shards)) shards) ≤ left shards
left-recovered shards =
    count-map-le (recovered_shard (interrupted shards))
      (λ id. live id (map (recovered_shard (interrupted shards)) shards)) (λ id. live id shards)
      (λ s. ground arith) (live-recovered shards) shards

-- What a read of shards that were written returns.
pub left-read : (b : Bool) (shards : List Shard) → left (if b then shards else []) ≤ left shards
left-read true shards = omega arith
left-read false shards = omega arith
