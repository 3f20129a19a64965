-- ===== src/Ledger/Sound.antt =====
-- The agreement itself, over the part of the files that it speaks of.
use vibecoding_dofe_ai.Base.{
  ℕ, ◌≤◌, ◌<◌, ◌≡◌, Bool, true, false, ◌&&◌, String, List, [], ◌∷◌, map, length, any, ltb, All,
  All-map, All-weaken, length-map, if◌then◌else◌, ◌==◌, nat_eq, string_eq, arith, Bool-cases, inl,
  inr,
}
use vibecoding_dofe_ai.Schema.{Shard, TestRecord, ReviewRecord, is_done, is_pass, is_test_pass}
use vibecoding_dofe_ai.Store.{World, Env}

pub record Ledger : Type 0 where
  pub total : ℕ
  pub round : ℕ
  pub reloops : ℕ
  pub shards : List Shard
  pub tests : List TestRecord
  pub reviews : List ReviewRecord

abbrev pub ledger : World → Ledger
ledger w = record {
  total = w.state.shards_total;
  round = w.state.round;
  reloops = w.state.reloop_count;
  shards = w.shards;
  tests = w.test_records;
  reviews = w.review_records;
}

-- The shards that a read returns.
abbrev pub current : Ledger → List Shard
current l = if ltb 0 l.total then l.shards else []

-- A passing test run and a PASS review of this shard, in this round.
abbrev pub passing_test : Ledger → String → TestRecord → Bool
passing_test l id test = test.shard_id == id && (test.round == l.round && is_test_pass test.status)

abbrev pub passing_review : Ledger → String → ReviewRecord → Bool
passing_review l id review =
    review.shard_id == id && (review.round == l.round && is_pass review.verdict)

-- A DONE shard has been tested and reviewed in the current round.
abbrev pub IsProven : Ledger → Shard → Type 0
IsProven l shard =
    is_done shard.status ≡ true
    → (any (passing_test l shard.id) l.tests ≡ true)
      × (any (passing_review l shard.id) l.reviews ≡ true)

pub record IsSound (env : Env) (l : Ledger) : Type 0 where
  pub counted : 0 < l.total → l.total ≡ length l.shards
  pub within : l.reloops ≤ env.config.max_reloop
  pub proven : All (IsProven l) (current l)

module _ (l : Ledger) where
  relabel-IsProven :
      (f : Shard → Shard) (s : Shard)
      → ((f s).id ≡ s.id) × (is_done (f s).status ≡ true → is_done s.status ≡ true)
      → IsProven l s
      → IsProven l (f s)
  relabel-IsProven f s (same, kept) p = λ d. rw same (p (kept d))

  relabel-All-IsProven :
      (f : Shard → Shard)
      (keep : (s : Shard)
        → ((f s).id ≡ s.id) × (is_done (f s).status ≡ true → is_done s.status ≡ true))
      → (b : Bool) (shards : List Shard) → All (IsProven l) (if b then shards else [])
      → All (IsProven l) (if b then map f (if b then shards else []) else [])
  relabel-All-IsProven f keep true shards h =
      All-map (IsProven l) (IsProven l) f (λ s p. relabel-IsProven f s (keep s) p) shards h
  relabel-All-IsProven f keep false shards h = tt

  relabel_file-All-IsProven :
      (f : Shard → Shard)
      (keep : (s : Shard)
        → ((f s).id ≡ s.id) × (is_done (f s).status ≡ true → is_done s.status ≡ true))
      → (b : Bool) (shards : List Shard) → All (IsProven l) (if b then shards else [])
      → All (IsProven l) (if b then map f shards else [])
  relabel_file-All-IsProven f keep true shards h =
      All-map (IsProven l) (IsProven l) f (λ s p. relabel-IsProven f s (keep s) p) shards h
  relabel_file-All-IsProven f keep false shards h = tt

module _ {env : Env} {l : Ledger} where
  -- A change of the shards that makes none of them DONE.
  pub relabel-IsSound :
      (f : Shard → Shard)
      (keep : (s : Shard)
        → ((f s).id ≡ s.id) × (is_done (f s).status ≡ true → is_done s.status ≡ true))
      → IsSound env l
      → IsSound env (record l { shards = map f (current l) })
  relabel-IsSound f keep h = record {
    counted = λ p. ground (arith, h.counted p, length-map f l.shards);
    within = h.within;
    proven = relabel-All-IsProven l f keep (ltb 0 l.total) l.shards h.proven;
  }

  -- A change of the whole file of shards.
  pub relabel_file-IsSound :
      (f : Shard → Shard)
      (keep : (s : Shard)
        → ((f s).id ≡ s.id) × (is_done (f s).status ≡ true → is_done s.status ≡ true))
      → IsSound env l
      → IsSound env (record l { shards = map f l.shards })
  relabel_file-IsSound f keep h = record {
    counted = λ p. ground (arith, h.counted p, length-map f l.shards);
    within = h.within;
    proven = relabel_file-All-IsProven l f keep (ltb 0 l.total) l.shards h.proven;
  }

  -- The shards that were read are written back.
  pub reread-IsSound : IsSound env l → IsSound env (record l { shards = current l })
  reread-IsSound h = elim (Bool-cases (ltb 0 l.total)) [
    | inl e ↦ record {
      counted = λ p. rw e (h.counted p);
      within = h.within;
      proven = rw e (rw e at h.proven);
    }
    | inr e ↦ record { counted = λ p. ground (arith, e, p); within = h.within; proven = rw e tt }
  ]

  pub add_test-IsSound :
      (t : TestRecord) → IsSound env l → IsSound env (record l { tests = t ∷ l.tests })
  add_test-IsSound t h = record {
    counted = h.counted;
    within = h.within;
    proven =
        All-weaken (IsProven l) (IsProven (record l { tests = t ∷ l.tests }))
          (λ s p d. (ground (arith, p d), (p d).1)) (current l) h.proven;
  }

  pub add_review-IsSound :
      (r : ReviewRecord) → IsSound env l → IsSound env (record l { reviews = r ∷ l.reviews })
  add_review-IsSound r h = record {
    counted = h.counted;
    within = h.within;
    proven =
        All-weaken (IsProven l) (IsProven (record l { reviews = r ∷ l.reviews }))
          (λ s p d. ((p d).0, ground (arith, p d))) (current l) h.proven;
  }

-- The files of a loop agree.
pub record IsConsistent (env : Env) (w : World) : Type 0 where
  pub sound : IsSound env (ledger w)
