-- ===== src/Dashboard/Columns.antt =====
-- The board against a filter of the loops for each column.
use Prim.Native.Nat.{Ordering}
use vibecoding_dofe_ai.Base.{
  ◌≡◌, ◌∙◌, sym, ap, refl, String, List, [], ◌∷◌, ◌++◌, map, filter, Bool-cases, inl, inr,
}
use vibecoding_dofe_ai.Dashboard.Types.{LoopItem, CostItem, cost_of, sort_by}
use vibecoding_dofe_ai.Dashboard.Board.{
  ColumnId, BoardItem, BoardColumn, same_column, column_ids, empty_column, place, place_all,
  later_item, sort_column, build_loop_board, infer_board_column, board_item,
}

append_assoc : (xs ys zs : List BoardItem) → (xs ++ ys) ++ zs ≡ xs ++ (ys ++ zs)
append_assoc [] ys zs = refl
append_assoc (x ∷ xs) ys zs = ap (λ l. x ∷ l) (append_assoc xs ys zs)

append-nil : (xs : List BoardItem) → xs ++ [] ≡ xs
append-nil [] = refl
append-nil (x ∷ xs) = ap (λ l. x ∷ l) (append-nil xs)

module _ (compare_titles : String → String → Ordering) (cost : List CostItem) where
  -- The loops of one column, as the board shows them.
  abbrev pub loops_of : ColumnId → List LoopItem → List BoardItem
  loops_of id items =
      map (λ (item : LoopItem). board_item item (cost_of cost item.issue.id))
        (filter
          (λ (item : LoopItem).
            same_column (infer_board_column item (cost_of cost item.issue.id)) id)
          items)

  abbrev grown : List LoopItem → BoardColumn → BoardColumn
  grown items column = record column { items = column.items ++ loops_of column.id items }

  grown-nil : (columns : List BoardColumn) → map (grown []) columns ≡ columns
  grown-nil [] = refl
  grown-nil (c ∷ cs) =
      let e : grown [] c ≡ c = ap (λ l. record c { items = l }) (append-nil c.items) in
      ap (λ d. d ∷ map (grown []) cs) e ∙ ap (λ ds. c ∷ ds) (grown-nil cs)

  grown-place :
      (item : LoopItem) (items : List LoopItem) (column : BoardColumn)
      → grown items (place compare_titles cost item column) ≡ grown (item ∷ items) column
  grown-place item items column =
      elim (Bool-cases
        (same_column (infer_board_column item (cost_of cost item.issue.id)) column.id)) [
          | inl e ↦ rw e (
              ap (λ l. record column { items = l })
                (append_assoc column.items (board_item item (cost_of cost item.issue.id) ∷ [])
                  (loops_of column.id items)))
          | inr e ↦ rw e refl
        ]

  grown-places :
      (item : LoopItem) (items : List LoopItem) (columns : List BoardColumn)
      → map (grown items) (map (place compare_titles cost item) columns)
        ≡ map (grown (item ∷ items)) columns
  grown-places item items [] = refl
  grown-places item items (c ∷ cs) =
      ap (λ d. d ∷ map (grown items) (map (place compare_titles cost item) cs))
        (grown-place item items c)
      ∙ ap (λ ds. grown (item ∷ items) c ∷ ds) (grown-places item items cs)

  place_all-grown :
      (items : List LoopItem) (columns : List BoardColumn)
      → place_all compare_titles cost items columns ≡ map (grown items) columns
  unfolding place_all
  place_all-grown [] columns = sym (grown-nil columns)
  place_all-grown (item ∷ items) columns =
      place_all-grown items (map (place compare_titles cost item) columns)
      ∙ grown-places item items columns

  -- The column as a filter of the loops, in order.
  abbrev pub filtered_column : List LoopItem → ColumnId → BoardColumn
  filtered_column items id = record {
    id = id;
    items = sort_by (later_item compare_titles) (loops_of id items);
  }

  -- The board that is filled loop by loop has the six columns in their order, and in each the
  -- loops, and only those, for which inferBoardColumn names the column, as the stable sort by
  -- priority and title orders them.
  pub build_loop_board-filters :
      (items : List LoopItem)
      → build_loop_board compare_titles cost items ≡ map (filtered_column items) column_ids
  unfolding build_loop_board
  build_loop_board-filters items =
      ap (map (sort_column compare_titles)) (place_all-grown items (map empty_column column_ids))
