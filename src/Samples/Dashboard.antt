-- ===== src/Samples/Dashboard.antt =====
-- Two loops on the dashboard: one at work, one paused.
use Prim.Native.Nat.{Ordering}
use vibecoding_dofe_ai.Base.{Bool, true, false, String, List, [], ◌∷◌, none, some}
use vibecoding_dofe_ai.Schema.{Phase, phase_4_implement, phase_7_global_review, numbered}
use vibecoding_dofe_ai.Dashboard.{LoopItem, p1}
use vibecoding_dofe_ai.Samples.{sample_issue, sample_state}

abbrev pub shown_loop : Phase → (paused : Bool) → LoopItem
shown_loop phase paused = record {
  issue = sample_issue;
  priority = p1;
  state = some (record (sample_state phase 1 (numbered 1)) { paused = paused });
  release_gate = none;
}

abbrev pub shown_loops : List LoopItem
shown_loops = shown_loop phase_4_implement false ∷ shown_loop phase_7_global_review true ∷ []

abbrev pub same_titles : String → String → Ordering
same_titles a b = Ordering.eq
