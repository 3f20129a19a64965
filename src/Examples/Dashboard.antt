-- ===== src/Examples/Dashboard.antt =====
-- The theorems on the board and the queues, on two loops.
use vibecoding_dofe_ai.Base.{◌≡◌, ◌≤◌, true, [], length, map, none, some, All}
use vibecoding_dofe_ai.Schema.{phase_4_implement}
use vibecoding_dofe_ai.Dashboard.{
  blocked, delivered, same_column, column_ids, build_loop_board, infer_board_column,
  infer_human_gate, infer_mode, build_aging_queue,
}
use vibecoding_dofe_ai.Dashboard.Columns.{filtered_column, build_loop_board-filters}
use vibecoding_dofe_ai.Dashboard.Lanes.{
  is_exception, is_done_gate, is_delivered_mode, infer_board_column-agrees,
}
use vibecoding_dofe_ai.Dashboard.Ages.{IsOldestFirst, IsStale, build_aging_queue_shape}
use vibecoding_dofe_ai.Samples.Dashboard.{shown_loop, shown_loops, same_titles}

board_example :
    build_loop_board same_titles [] shown_loops
    ≡ map (filtered_column same_titles [] shown_loops) column_ids
board_example = build_loop_board-filters same_titles [] shown_loops

lane_example :
    (same_column (infer_board_column (shown_loop phase_4_implement true) none) blocked
      ≡ is_exception (infer_human_gate (shown_loop phase_4_implement true) none))
    × (same_column (infer_board_column (shown_loop phase_4_implement true) none) delivered
        ≡ is_done_gate (infer_human_gate (shown_loop phase_4_implement true) none))
    × (same_column (infer_board_column (shown_loop phase_4_implement true) none) delivered
        ≡ is_delivered_mode (infer_mode (shown_loop phase_4_implement true)))
lane_example = infer_board_column-agrees (shown_loop phase_4_implement true) none

ages_example :
    (length (build_aging_queue (λ text. some 0) 360000000 shown_loops) ≤ 6)
    × IsOldestFirst (build_aging_queue (λ text. some 0) 360000000 shown_loops)
    × All IsStale (build_aging_queue (λ text. some 0) 360000000 shown_loops)
ages_example = build_aging_queue_shape (λ text. some 0) 360000000 shown_loops
