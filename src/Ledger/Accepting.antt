-- ===== src/Ledger/Accepting.antt =====
-- A shard that is reviewed: when the ledger stays sound, and where its evidence comes from.
use vibecoding_dofe_ai.Base.{
  ◌≡◌, refl, sym, Bool, true, false, ◌||◌, String, List, [], ◌∷◌, map, find, any, All, All-map,
  Bool-cases, Option-cases, inl, inr, arith, ◌==◌, nat_eq, string_eq, str_eq_iff, if◌then◌else◌,
  ltb, length-map, any_of_find-filter,
}
use mathlib.Core.Path.{subst}
use vibecoding_dofe_ai.Schema.{
  Shard, TestRecord, ReviewRecord, Verdict, pass, needs_work, fail, needs_work_status,
  failed_status, done_status, is_pass, is_test_pass,
}
use vibecoding_dofe_ai.Store.{World, Env, read_detail}
use vibecoding_dofe_ai.Engine.{with_status}
use vibecoding_dofe_ai.ShardState.{test_of, tests_pass, effective_verdict, verdict_status}
use vibecoding_dofe_ai.Ledger.Sound.{
  Ledger, ledger, current, IsSound, IsProven, passing_test, passing_review, relabel-IsSound,
  add_review-IsSound,
}
use vibecoding_dofe_ai.Ledger.Progress.{with_status-keeps}

or_right : (a b : Bool) → b ≡ true → (a || b) ≡ true
or_right true b h = refl
or_right false b h = h

module _ (l : Ledger) (id : String) (r : ReviewRecord) where
  accepted_shard :
      any (passing_test l id) l.tests ≡ true
      → passing_review l id r ≡ true
      → (s : Shard) → IsProven l s
      → IsProven (record l { reviews = r ∷ l.reviews }) (with_status id done_status s)
  accepted_shard tested passed s p = elim (Bool-cases (s.id == id)) [
    | inl e ↦
        let same : s.id ≡ id = (str_eq_iff _ _).0 e in
        let becomes : with_status id done_status s ≡ record s { status = done_status } = rw e in
        subst (IsProven (record l { reviews = r ∷ l.reviews })) (sym becomes)
          (λ d. (rw same tested, rw (same, passed) refl))
    | inr e ↦
        let stays : with_status id done_status s ≡ s = rw e in
        subst (IsProven (record l { reviews = r ∷ l.reviews })) (sym stays)
          (λ d. ((p d).0, or_right _ _ (p d).1))
  ]

  accepted-All-IsProven :
      any (passing_test l id) l.tests ≡ true
      → passing_review l id r ≡ true
      → (b : Bool) (shards : List Shard) → All (IsProven l) (if b then shards else [])
      → All
          (IsProven (record l { reviews = r ∷ l.reviews }))
          (if b then map (with_status id done_status) (if b then shards else []) else [])
  accepted-All-IsProven tested passed true shards h =
      All-map (IsProven l) (IsProven (record l { reviews = r ∷ l.reviews }))
        (with_status id done_status) (accepted_shard tested passed) shards h
  accepted-All-IsProven tested passed false shards h = tt

  -- A PASS review of a tested shard.
  accept-IsSound :
      (env : Env)
      → any (passing_test l id) l.tests ≡ true
      → passing_review l id r ≡ true
      → IsSound env l
      → IsSound env (record l {
        shards = map (with_status id done_status) (current l);
        reviews = r ∷ l.reviews;
      })
  accept-IsSound env tested passed h = record {
    counted = λ p. ground (arith, h.counted p, length-map (with_status id done_status) l.shards);
    within = h.within;
    proven = accepted-All-IsProven tested passed (ltb 0 l.total) l.shards h.proven;
  }

-- The newest test record of the round, if it passed, is a passing run of the shard.
pub tests_pass-any :
    (w : World) (id : String)
    → tests_pass (find (test_of id w.state.round) (read_detail w).test_records) ≡ true
    → any (passing_test (ledger w) id) w.test_records ≡ true
unfolding read_detail
tests_pass-any w id h =
    elim (Option-cases (find (test_of id w.state.round) (read_detail w).test_records)) [
      | inl e ↦ cc (rw e at h)
      | inr (t, e) ↦
          any_of_find-filter _ _ (λ (x : TestRecord). is_test_pass x.status) _ w.test_records t e
            (rw e at h) (λ x p r. ground arith)
    ]

pub effective_verdict-pass :
    (exceeded : Bool) (verdict : Verdict)
    → is_pass (effective_verdict exceeded verdict) ≡ true
    → is_pass verdict ≡ true
unfolding effective_verdict
effective_verdict-pass exceeded verdict h = ground arith

-- The ledger that the write of a review leaves, before the cost guard.
unfoldable pub reviewed_ledger : Ledger → String → Verdict → ReviewRecord → Ledger
reviewed_ledger l id verdict r = record l {
  shards = map (with_status id (verdict_status verdict)) (current l);
  reviews = r ∷ l.reviews;
}

pub reviewed_ledger-IsSound :
    (env : Env) (l : Ledger) (id : String) (verdict : Verdict) (r : ReviewRecord)
    → (is_pass verdict ≡ true
        → (any (passing_test l id) l.tests ≡ true) × (passing_review l id r ≡ true))
    → IsSound env l
    → IsSound env (reviewed_ledger l id verdict r)
unfolding reviewed_ledger
reviewed_ledger-IsSound env l id pass r evidence h =
    let (tested, passed) = evidence refl in accept-IsSound l id r env tested passed h
reviewed_ledger-IsSound env l id needs_work r evidence h = add_review-IsSound r (
    relabel-IsSound (with_status id needs_work_status)
      (λ s. with_status-keeps id needs_work_status s refl) h)
reviewed_ledger-IsSound env l id fail r evidence h = add_review-IsSound r (
    relabel-IsSound (with_status id failed_status) (λ s. with_status-keeps id failed_status s refl)
      h)
