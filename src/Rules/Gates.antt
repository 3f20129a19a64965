-- ===== src/Rules/Gates.antt =====
-- The gates that a human or a record holds: the approval of the spec before any work, the tests
-- before a PASS, the verdict and the release gate before the loop is closed.
use vibecoding_dofe_ai.Base.{
  ◌≡◌, refl, Bool, true, false, ◌||◌, String, List, ◌∷◌, Option, none, some, find, inl, inr,
  Bool-cases, arith, ◌==◌, string_eq, str_eq_iff, find-passes, ◌⊎◌,
}
use vibecoding_dofe_ai.Schema.{
  Detail, Spec, Shard, ImplementationRecord, ReviewShardRequest, is_closed, is_closed_issue,
  is_pass,
}
use vibecoding_dofe_ai.Store.{World, Env, Outcome, Error, done, thrown, read_detail}
use vibecoding_dofe_ai.Engine
use vibecoding_dofe_ai.Engine.{
  Move, resume_loop, stop, plan_spec, refuse, break_down, finish, review, run_shards, next_move,
  spec_move, approved_move, has_approved, verdict_passed, is_terminal, make_move, advance_from,
  advance_steps, AdvancePort,
}
use vibecoding_dofe_ai.Adapters.{Adapters}
use vibecoding_dofe_ai.ShardState.{
  test_of, tests_pass, apply_review, review_found, review_implemented,
}
use vibecoding_dofe_ai.Service

-- The moves that change shards, a verdict or the end of the loop.
abbrev pub needs_approval : Move → Bool
needs_approval break_down = true
needs_approval finish = true
needs_approval review = true
needs_approval run_shards = true
needs_approval _ = false

-- The call throws, and leaves the files as they were.
abbrev pub IsRefused : {A : Type 0} → Outcome A → World → Type 0
IsRefused o w = (e : Error) × (o ≡ thrown e w)

spec_move-approved :
    (d : Detail) (o : Option Spec) → needs_approval (spec_move d o) ≡ true → has_approved o ≡ true
unfolding spec_move
spec_move-approved d none h = cc
spec_move-approved d (some spec) h = ground arith

-- Where the next move of advance is to decompose, to run shards, to review or to finalize, the loop
-- has an approved spec in place, is not paused, and neither its issue nor its phase is closed.
pub next_move-approved :
    (d : Detail)
    → needs_approval (next_move d) ≡ true
    → (has_approved d.spec ≡ true)
      × (d.state.paused ≡ false)
      × ((is_closed_issue d.issue.status || is_closed d.state.phase) ≡ false)
unfolding next_move
next_move-approved d h = ground (arith, spec_move-approved d d.spec)

review_implemented-untested :
    (env : Env) (adapters : Adapters) (issue_id : String) (request : ReviewShardRequest)
    (shard : Shard) (o : Option ImplementationRecord) (w : World)
    → is_pass request.verdict ≡ true
    → tests_pass (find (test_of shard.id w.state.round) (read_detail w).test_records) ≡ false
    → IsRefused (review_implemented env adapters issue_id request (read_detail w) shard o w) w
unfolding review_implemented read_detail
review_implemented-untested env adapters issue_id request shard none w p t = (_, refl)
review_implemented-untested env adapters issue_id request shard (some impl) w p t =
    rw (p, t) (_, refl)

review_found-untested :
    (env : Env) (adapters : Adapters) (issue_id shard_id : String) (request : ReviewShardRequest)
    (o : Option Shard) (w : World)
    → ((s : Shard) → o ≡ some s → s.id ≡ shard_id)
    → is_pass request.verdict ≡ true
    → tests_pass (find (test_of shard_id w.state.round) (read_detail w).test_records) ≡ false
    → IsRefused (review_found env adapters issue_id shard_id request (read_detail w) o w) w
unfolding review_found
review_found-untested env adapters issue_id shard_id request none w same p t = (_, refl)
review_found-untested env adapters issue_id shard_id request (some s) w same p t =
    review_implemented-untested env adapters issue_id request s _ w p (rw (same s refl) t)

-- A PASS for a shard whose newest test record of the round is missing or does not pass is refused
-- with an error, and no file changes.
pub apply_review-untested :
    (env : Env) (adapters : Adapters) (issue_id shard_id : String) (request : ReviewShardRequest)
    (w : World)
    → is_pass request.verdict ≡ true
    → tests_pass (find (test_of shard_id w.state.round) (read_detail w).test_records) ≡ false
    → IsRefused (apply_review env adapters issue_id shard_id request w) w
unfolding apply_review
apply_review-untested env adapters issue_id shard_id request w p t =
    review_found-untested env adapters issue_id shard_id request _ w
      (λ s e.
        (str_eq_iff _ _).0
          (find-passes (λ (shard : Shard). shard.id == shard_id) (read_detail w).shards s e))
      p t

-- finalize of a loop that is not closed throws and changes no file, if the global verdict is not
-- PASS or the release gate has a blocker.
pub finalize-IsRefused :
    (env : Env) (adapters : Adapters) (w : World)
    → is_terminal (read_detail w) ≡ false
    → (verdict_passed (read_detail w).state.global_verdict ≡ false)
      ⊎ ((blocker : String) × (blockers : List String) × (adapters.release_blockers (read_detail w)
            ≡ blocker ∷ blockers))
    → IsRefused (Service.finalize env adapters w) w
unfolding Service.finalize Engine.finalize Service.finalize_port Service.enforce_release_gate
    Service.refuse_blocked
finalize-IsRefused env adapters w live (inl e) = rw (live, e) (_, refl)
finalize-IsRefused env adapters w live (inr (b, bs, e)) =
    elim (Bool-cases (verdict_passed (read_detail w).state.global_verdict)) [
      | inl p ↦ rw (live, p, e) (_, refl)
      | inr p ↦ rw (live, p) (_, refl)
    ]

-- On a closed or finalized loop, finalize, reviewGlobal, runLoop and decompose return the detail as
-- it is and change no file.
pub closed-untouched :
    (env : Env) (adapters : Adapters) (issue_id : String) (w : World)
    → is_terminal (read_detail w) ≡ true
    → (Service.finalize env adapters w ≡ done (read_detail w) w)
      × (Service.review_global env adapters issue_id w ≡ done (read_detail w) w)
      × (Service.run_loop env adapters issue_id w ≡ done (read_detail w) w)
      × (Service.decompose env adapters w ≡ done (read_detail w) w)
unfolding Service.finalize Engine.finalize Service.review_global Engine.review_global
    Service.run_loop Engine.run_loop Service.decompose Engine.decompose Service.finalize_port
    Service.global_review_port
closed-untouched env adapters issue_id w e = (rw e refl, rw e refl, rw e refl, rw e refl)
