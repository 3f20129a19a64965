-- ===== src/Dashboard/Lanes.antt =====
-- Each loop on the board once, and its column beside its gate and its mode.
use Prim.Native.Nat.{Ordering}
use vibecoding_dofe_ai.Base.{
  ℕ, suc, ◌+◌, ◌≡◌, ◌∙◌, sym, refl, Bool, true, false, String, List, [], ◌∷◌, Option, length,
  if◌then◌else◌, arith, Bool-cases, inl, inr,
}
use vibecoding_dofe_ai.Dashboard.Types.{LoopItem, CostItem, cost_of, insert_by, sort_by}
use vibecoding_dofe_ai.Dashboard.Board.{
  spec_gate, release_decision, no_human_gate, is_unspecified, in_phases, is_spec_phase, recovery,
  plan, review, code_mode, is_ready_to_ship_candidate, ColumnId, backlog, spec_review, running,
  blocked, ready_to_ship, delivered, BoardItem, BoardColumn, same_column, later_item,
  build_loop_board, infer_board_column, LoopGate, exception_gate, done_gate, Mode, delivered_mode,
  infer_human_gate, infer_mode, is_delivered_loop, is_stuck,
}
use vibecoding_dofe_ai.Dashboard.Columns.{loops_of, build_loop_board-filters}

length-insert_by :
    (after : BoardItem → BoardItem → Bool) (x : BoardItem) (ys : List BoardItem)
    → length (insert_by after x ys) ≡ suc (length ys)
length-insert_by after x [] = refl
length-insert_by after x (y ∷ ys) = ground (arith, length-insert_by after x ys)

length-sort_by :
    (after : BoardItem → BoardItem → Bool) (xs : List BoardItem)
    → length (sort_by after xs) ≡ length xs
unfolding sort_by
length-sort_by after [] = refl
length-sort_by after (x ∷ xs) =
    omega (arith, length-insert_by after x (sort_by after xs), length-sort_by after xs)

abbrev pub board_size : List BoardColumn → ℕ
board_size [] = 0
board_size (column ∷ columns) = length column.items + board_size columns

abbrev one_at : ColumnId → ColumnId → ℕ
one_at c id = if same_column c id then 1 else 0

one_place :
    (c : ColumnId)
    → one_at c backlog
        + one_at c spec_review
        + one_at c running
        + one_at c blocked
        + one_at c ready_to_ship
        + one_at c delivered
      ≡ 1
one_place backlog = refl
one_place spec_review = refl
one_place running = refl
one_place blocked = refl
one_place ready_to_ship = refl
one_place delivered = refl

module _ (compare_titles : String → String → Ordering) (cost : List CostItem) where
  abbrev size : ColumnId → List LoopItem → ℕ
  size id items = length (loops_of compare_titles cost id items)

  size-cons :
      (id : ColumnId) (item : LoopItem) (items : List LoopItem)
      → size id (item ∷ items)
        ≡ one_at (infer_board_column item (cost_of cost item.issue.id)) id + size id items
  size-cons id item items =
      elim (Bool-cases (same_column (infer_board_column item (cost_of cost item.issue.id)) id)) [
        | inl e ↦ rw e (omega arith)
        | inr e ↦ rw e (omega arith)
      ]

  sizes :
      (items : List LoopItem)
      → size backlog items
          + size spec_review items
          + size running items
          + size blocked items
          + size ready_to_ship items
          + size delivered items
        ≡ length items
  sizes [] = refl
  sizes (item ∷ items) = omega (
    arith,
    size-cons backlog item items,
    size-cons spec_review item items,
    size-cons running item items,
    size-cons blocked item items,
    size-cons ready_to_ship item items,
    size-cons delivered item items,
    one_place (infer_board_column item (cost_of cost item.issue.id)),
    sizes items,
  )

  pub board_size-build_loop_board :
      (items : List LoopItem)
      → board_size (build_loop_board compare_titles cost items) ≡ length items
  board_size-build_loop_board items =
      let after = later_item compare_titles in
      rw (build_loop_board-filters compare_titles cost items) (
        omega (
          arith,
          length-sort_by after (loops_of compare_titles cost backlog items),
          length-sort_by after (loops_of compare_titles cost spec_review items),
          length-sort_by after (loops_of compare_titles cost running items),
          length-sort_by after (loops_of compare_titles cost blocked items),
          length-sort_by after (loops_of compare_titles cost ready_to_ship items),
          length-sort_by after (loops_of compare_titles cost delivered items),
          sizes items,
        ))

abbrev pub is_exception : LoopGate → Bool
is_exception exception_gate = true
is_exception _ = false

abbrev pub is_done_gate : LoopGate → Bool
is_done_gate done_gate = true
is_done_gate _ = false

abbrev pub is_delivered_mode : Mode → Bool
is_delivered_mode delivered_mode = true
is_delivered_mode _ = false

undelivered :
    (a b c : Bool)
    → is_delivered_mode
        (if a then recovery else if b then plan else if c then review else code_mode)
      ≡ false
undelivered true b c = refl
undelivered false true c = refl
undelivered false false true = refl
undelivered false false false = refl

-- The columns and the gates of a loop that goes on.
going_column : (a b c : Bool) → ColumnId
going_column a b c =
    if a then backlog else if b then spec_review else if c then ready_to_ship else running

going_gate : (b c : Bool) → LoopGate
going_gate b c = if b then spec_gate else if c then release_decision else no_human_gate

going_on :
    (a b c : Bool)
    → (same_column (going_column a b c) blocked ≡ is_exception (going_gate b c))
      × (same_column (going_column a b c) delivered ≡ is_done_gate (going_gate b c))
      × (same_column (going_column a b c) delivered ≡ false)
unfolding going_column going_gate
going_on a b c = ground arith

-- A loop stands in the column blocked exactly where its human gate is the exception, and in the
-- column delivered exactly where its gate is done and where its mode is delivered.
pub infer_board_column-agrees :
    (item : LoopItem) (cost : Option CostItem)
    → (same_column (infer_board_column item cost) blocked
        ≡ is_exception (infer_human_gate item cost))
      × (same_column (infer_board_column item cost) delivered
          ≡ is_done_gate (infer_human_gate item cost))
      × (same_column (infer_board_column item cost) delivered ≡ is_delivered_mode (infer_mode item))
unfolding infer_board_column infer_human_gate infer_mode
infer_board_column-agrees item cost = elim (Bool-cases (is_delivered_loop item)) [
  | inl e ↦ rw e (refl, refl, refl)
  | inr e ↦ elim (Bool-cases (is_stuck item cost)) [
    | inl f ↦ rw (e, f) (refl, refl, sym (undelivered _ _ _))
    | inr f ↦
        let g =
          going_on (is_unspecified item.state) (in_phases is_spec_phase item)
            (is_ready_to_ship_candidate item) in
        rw (e, f) (unfold going_column going_gate in (g.0, g.1, g.2 ∙ sym (undelivered _ _ _)))
  ]
]
