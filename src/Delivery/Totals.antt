-- ===== src/Delivery/Totals.antt =====
-- The sum of summaries beside the summary of all their items, and the parts of a summary.
use vibecoding_dofe_ai.Base.{
  ℕ, ◌+◌, ◌≤◌, ◌<◌, ◌≡◌, ◌∙◌, sym, ap, refl, List, [], ◌∷◌, ◌++◌, map, length, ◌==◌, nat_eq, arith,
  Bool-cases, inl, inr,
}
use vibecoding_dofe_ai.Evidence.{
  RequirementStatus, accepted, reviewed, tested, implemented_status, planned, missing, CoverageItem,
}
use vibecoding_dofe_ai.Delivery.Summary.{
  CoverageSummary, percent_of, empty_coverage_summary, add_status, add_items, with_percent,
  summarize_requirements_coverage, add_summary, add_summaries, total_of,
  aggregate_coverage_summaries,
}

abbrev pub parts : CoverageSummary → ℕ
parts s =
    s.accepted_count + s.reviewed_count + s.tested_count + s.implemented_count + s.planned_count
    + s.missing_count

parts-add_status :
    (status : RequirementStatus) (s : CoverageSummary)
    → (parts (add_status status s) ≡ parts s + 1) × ((add_status status s).total ≡ s.total)
parts-add_status accepted s = (omega arith, refl)
parts-add_status reviewed s = (omega arith, refl)
parts-add_status tested s = (omega arith, refl)
parts-add_status implemented_status s = (omega arith, refl)
parts-add_status planned s = (omega arith, refl)
parts-add_status missing s = (omega arith, refl)

parts-add_items :
    (s : CoverageSummary) (items : List CoverageItem)
    → (parts (add_items s items) ≡ parts s + length items) × ((add_items s items).total ≡ s.total)
unfolding add_items
parts-add_items s [] = (omega arith, refl)
parts-add_items s (item ∷ items) =
    let p = parts-add_status item.status s in
    let q = parts-add_items (add_status item.status s) items in (omega (arith, p.0, q.0), q.1 ∙ p.1)

-- What correct rounding gives: a larger part is no smaller a percent, and the whole is 100.
pub record IsRounded (round_percent : ℕ → ℕ → ℕ) : Type 0 where
  pub rising : (a b n : ℕ) → a ≤ b → round_percent a n ≤ round_percent b n
  pub whole : (n : ℕ) → 0 < n → round_percent n n ≡ 100

percent-le :
    (round_percent : ℕ → ℕ → ℕ)
    → IsRounded round_percent
    → (a total : ℕ) → a ≤ total
    → percent_of round_percent a total ≤ 100
percent-le round_percent r a total h = elim (Bool-cases (total == 0)) [
  | inl e ↦ rw e (omega arith)
  | inr e ↦ rw e (omega (arith, r.rising a total total h, r.whole total (ground (arith, e))))
]

-- What is added to a summary may be counted from there, whatever its percent was.
add_summary-add_status :
    (status : RequirementStatus) (s t : CoverageSummary)
    → add_summary s (add_status status t) ≡ add_status status (add_summary s t)
add_summary-add_status accepted s t = ground arith
add_summary-add_status reviewed s t = ground arith
add_summary-add_status tested s t = ground arith
add_summary-add_status implemented_status s t = ground arith
add_summary-add_status planned s t = ground arith
add_summary-add_status missing s t = ground arith

add_summary-add_items :
    (s t : CoverageSummary) (items : List CoverageItem)
    → add_summary s (add_items t items) ≡ add_items (add_summary s t) items
unfolding add_items
add_summary-add_items s t [] = refl
add_summary-add_items s t (item ∷ items) =
    add_summary-add_items s (add_status item.status t) items
    ∙ ap (λ u. add_items u items) (add_summary-add_status item.status s t)

add_summary-empty : (s : CoverageSummary) (n : ℕ) → add_summary s (empty_coverage_summary n) ≡ s
unfolding empty_coverage_summary
add_summary-empty s n = ground arith

add_items-append :
    (s : CoverageSummary) (xs ys : List CoverageItem)
    → add_items s (xs ++ ys) ≡ add_items (add_items s xs) ys
unfolding add_items
add_items-append s [] ys = refl
add_items-append s (x ∷ xs) ys = add_items-append (add_status x.status s) xs ys

length-append : (xs ys : List CoverageItem) → length (xs ++ ys) ≡ length xs + length ys
length-append [] ys = omega arith
length-append (x ∷ xs) ys = omega (arith, length-append xs ys)

abbrev pub flatten : List (List CoverageItem) → List CoverageItem
flatten [] = []
flatten (xs ∷ xss) = xs ++ flatten xss

module _ (round_percent : ℕ → ℕ → ℕ) where
  -- The six counts of a coverage summary add up to the number of items, its total is that number,
  -- and where percentages are rounded correctly, its percent is at most 100.
  pub parts-summarize_requirements_coverage :
      IsRounded round_percent
      → (items : List CoverageItem)
      → (parts (summarize_requirements_coverage round_percent items) ≡ length items)
        × ((summarize_requirements_coverage round_percent items).total ≡ length items)
        × ((summarize_requirements_coverage round_percent items).percent ≤ 100)
  unfolding summarize_requirements_coverage empty_coverage_summary
  parts-summarize_requirements_coverage r items =
      let p = parts-add_items (empty_coverage_summary (length items)) items in
      (omega (arith, p.0), p.1, percent-le round_percent r _ _ (omega (arith, p.0, p.1)))

  add_summary-summarize :
      (s : CoverageSummary) (items : List CoverageItem)
      → add_summary s (summarize_requirements_coverage round_percent items) ≡ add_items s items
  unfolding summarize_requirements_coverage
  add_summary-summarize s items =
      add_summary-add_items s (empty_coverage_summary (length items)) items
      ∙ ap (λ u. add_items u items) (add_summary-empty s (length items))

  summarize_total :
      (items : List CoverageItem)
      → (summarize_requirements_coverage round_percent items).total ≡ length items
  unfolding summarize_requirements_coverage empty_coverage_summary
  summarize_total items = (parts-add_items (empty_coverage_summary (length items)) items).1

  add_summaries-flatten :
      (s : CoverageSummary) (xss : List (List CoverageItem))
      → add_summaries s (map (summarize_requirements_coverage round_percent) xss)
        ≡ add_items s (flatten xss)
  unfolding add_summaries add_items
  add_summaries-flatten s [] = refl
  add_summaries-flatten s (xs ∷ xss) =
      add_summaries-flatten (add_summary s (summarize_requirements_coverage round_percent xs)) xss
      ∙ ap (λ u. add_items u (flatten xss)) (add_summary-summarize s xs)
      ∙ sym (add_items-append s xs (flatten xss))

  total_of-flatten :
      (xss : List (List CoverageItem))
      → total_of (map (summarize_requirements_coverage round_percent) xss) ≡ length (flatten xss)
  unfolding total_of
  total_of-flatten [] = refl
  total_of-flatten (xs ∷ xss) =
      omega (arith, summarize_total xs, total_of-flatten xss, length-append xs (flatten xss))

  -- The sum of the coverage summaries of several loops is the summary of all their items together,
  -- its percent included.
  pub aggregate_coverage_summaries-flatten :
      (xss : List (List CoverageItem))
      → aggregate_coverage_summaries round_percent
          (map (summarize_requirements_coverage round_percent) xss)
        ≡ summarize_requirements_coverage round_percent (flatten xss)
  unfolding aggregate_coverage_summaries summarize_requirements_coverage
  aggregate_coverage_summaries-flatten xss = rw (total_of-flatten xss) (
      ap (with_percent round_percent)
        (add_summaries-flatten (empty_coverage_summary (length (flatten xss))) xss))
