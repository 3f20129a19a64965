-- ===== src/Dashboard/Ages.antt =====
-- The queue of stale loops: how many, how old, and in which order.
use vibecoding_dofe_ai.Base.{
  ℕ, suc, zero, ◌≤◌, ◌≡◌, refl, Bool, not, String, List, [], ◌∷◌, map, Option, filter, length, leb,
  All, if◌then◌else◌, arith, Bool-cases, inl, inr,
}
use vibecoding_dofe_ai.Dashboard.Types.{
  LoopItem, critical, warning, is_over, take, insert_by, sort_by,
}
use vibecoding_dofe_ai.Dashboard.Queues.{
  AgingItem, warning_hours, aging_item, younger, build_aging_queue,
}

-- Each item is at least as old as the next.
abbrev pub IsOldestFirst : List AgingItem → Type 0
IsOldestFirst [] = Unit
IsOldestFirst (a ∷ []) = Unit
IsOldestFirst (a ∷ b ∷ rest) = (b.age ≤ a.age) × IsOldestFirst (b ∷ rest)

-- An item that is stale, and critical from 72 hours on.
abbrev pub IsStale : AgingItem → Type 0
IsStale a = (24 ≤ a.age) × (a.level ≡ (if leb 72 a.age then critical else warning))

module _ (P : AgingItem → Type 0) where
  All-insert_by :
      (after : AgingItem → AgingItem → Bool) (x : AgingItem) (ys : List AgingItem)
      → P x
      → All P ys
      → All P (insert_by after x ys)
  All-insert_by after x [] px h = (px, tt)
  All-insert_by after x (y ∷ ys) px (py, h) = elim (Bool-cases (after x y)) [
    | inl e ↦ rw e (py, All-insert_by after x ys px h)
    | inr e ↦ rw e (px, (py, h))
  ]

  All-sort_by :
      (after : AgingItem → AgingItem → Bool) (xs : List AgingItem)
      → All P xs
      → All P (sort_by after xs)
  unfolding sort_by
  All-sort_by after [] h = tt
  All-sort_by after (x ∷ xs) (px, h) =
      All-insert_by after x (sort_by after xs) px (All-sort_by after xs h)

  All-take : (n : ℕ) (xs : List AgingItem) → All P xs → All P (take n xs)
  All-take zero xs h = tt
  All-take (suc n) [] h = tt
  All-take (suc n) (x ∷ xs) (px, h) = (px, All-take n xs h)

-- Whether an item may stand before the first of a list.
abbrev Leads : AgingItem → List AgingItem → Type 0
Leads a [] = Unit
Leads a (b ∷ rest) = b.age ≤ a.age

cons-IsOldestFirst :
    (a : AgingItem) (bs : List AgingItem) → Leads a bs → IsOldestFirst bs → IsOldestFirst (a ∷ bs)
cons-IsOldestFirst a [] l h = tt
cons-IsOldestFirst a (b ∷ bs) l h = (l, h)

tail-IsOldestFirst :
    (a : AgingItem) (bs : List AgingItem) → IsOldestFirst (a ∷ bs) → Leads a bs × IsOldestFirst bs
tail-IsOldestFirst a [] h = (tt, tt)
tail-IsOldestFirst a (b ∷ bs) h = h

length-take : (n : ℕ) (xs : List AgingItem) → length (take n xs) ≤ n
length-take zero xs = omega arith
length-take (suc n) [] = omega arith
length-take (suc n) (x ∷ xs) = omega (arith, length-take n xs)

Leads-take : (n : ℕ) (a : AgingItem) (bs : List AgingItem) → Leads a bs → Leads a (take n bs)
Leads-take zero a bs l = tt
Leads-take (suc n) a [] l = tt
Leads-take (suc n) a (b ∷ bs) l = l

take-IsOldestFirst : (n : ℕ) (xs : List AgingItem) → IsOldestFirst xs → IsOldestFirst (take n xs)
take-IsOldestFirst zero xs h = tt
take-IsOldestFirst (suc n) [] h = tt
take-IsOldestFirst (suc n) (x ∷ xs) h =
    let t = tail-IsOldestFirst x xs h in
    cons-IsOldestFirst x (take n xs) (Leads-take n x xs t.0) (take-IsOldestFirst n xs t.1)

-- `insert_by` over ages, whatever the clock.
module _ (time_of : String → Option ℕ) (now : ℕ) where
  Leads-insert :
      (a x : AgingItem) (ys : List AgingItem)
      → Leads a ys
      → x.age ≤ a.age
      → Leads a (insert_by (younger time_of now) x ys)
  Leads-insert a x [] l h = h
  Leads-insert a x (y ∷ ys) l h = elim (Bool-cases (younger time_of now x y)) [
    | inl e ↦ rw e l
    | inr e ↦ rw e h
  ]

  insert-IsOldestFirst :
      (x : AgingItem) (ys : List AgingItem)
      → IsOldestFirst ys
      → IsOldestFirst (insert_by (younger time_of now) x ys)
  insert-IsOldestFirst x [] h = tt
  insert-IsOldestFirst x (y ∷ ys) h = elim (Bool-cases (younger time_of now x y)) [
    | inl e ↦
        let t = tail-IsOldestFirst y ys h in
        let l : x.age ≤ y.age = ground (arith, e) in
        rw e (
          cons-IsOldestFirst y (insert_by (younger time_of now) x ys) (Leads-insert y x ys t.0 l)
            (insert-IsOldestFirst x ys t.1))
    | inr e ↦ let l : y.age ≤ x.age = ground (arith, e) in rw e (l, h)
  ]

  sort-IsOldestFirst : (xs : List AgingItem) → IsOldestFirst (sort_by (younger time_of now) xs)
  unfolding sort_by
  sort-IsOldestFirst [] = tt
  sort-IsOldestFirst (x ∷ xs) =
      insert-IsOldestFirst x (sort_by (younger time_of now) xs) (sort-IsOldestFirst xs)

  filter-IsStale :
      (items : List LoopItem)
      → All IsStale
          (filter (λ (a : AgingItem). leb warning_hours a.age) (map (aging_item time_of now) items))
  filter-IsStale [] = tt
  filter-IsStale (i ∷ items) =
      let age = (aging_item time_of now i).age in
      elim (Bool-cases (leb 24 age)) [
        | inl e ↦ let old : 24 ≤ age = ground (arith, e) in rw e ((old, refl), filter-IsStale items)
        | inr e ↦ rw e (filter-IsStale items)
      ]

  -- The queue of stale loops has at most six items, the oldest first, each at least 24 hours old,
  -- critical from 72 hours on and a warning before that.
  pub build_aging_queue_shape :
      (items : List LoopItem)
      → (length (build_aging_queue time_of now items) ≤ 6)
        × IsOldestFirst (build_aging_queue time_of now items)
        × All IsStale (build_aging_queue time_of now items)
  unfolding build_aging_queue
  build_aging_queue_shape items =
      let live = filter (λ (i : LoopItem). not (is_over i.issue.status)) items in
      let stale =
        filter (λ (a : AgingItem). leb warning_hours a.age) (map (aging_item time_of now) live) in
      let sorted = sort_by (younger time_of now) stale in
      (
        length-take 6 sorted,
        take-IsOldestFirst 6 sorted (sort-IsOldestFirst stale),
        All-take IsStale 6 sorted
            (All-sort_by IsStale (younger time_of now) stale (filter-IsStale live)),
      )
