-- ===== src/Locks/Keys.antt =====
-- The keys of a lock, and lists of keys as sets.
use Prim.Native.Char.{Char}
use Prim.Native.Nat.{Ordering}
use Prim.Native.String
use Prim.Native.String.{compare}
use text.Mathlib.Text.{is_eq}
use vibecoding_dofe_ai.Base.{
  ◌≡◌, refl, ap, Bool, true, false, ◌||◌, String, List, [], ◌∷◌, ◌++◌, some, find, includes, concat,
  ◌==◌, string_eq, str_eq_iff, arith, Bool-cases, inl, inr,
}
use vibecoding_dofe_ai.Locks.Requests.{sorted, lock_keys}

abbrev pub IsDistinct : List String → Type 0
IsDistinct [] = Unit
IsDistinct (key ∷ keys) = (includes keys key ≡ false) × IsDistinct keys

module _ (id repo : String) where
  unfoldable pub issue_key : String
  issue_key = concat ("issue:" ∷ id ∷ [])

  unfoldable pub repo_key : String
  repo_key = concat ("repo:" ∷ repo ∷ [])

  issue_head : issue_key ≡ String.◌∷◌ "i" (String.◌++◌ "ssue:" (concat (id ∷ [])))
  unfolding issue_key
  issue_head = String.append.cons "i" "ssue:" (concat (id ∷ []))

  repo_head : repo_key ≡ String.◌∷◌ "r" (String.◌++◌ "epo:" (concat (repo ∷ [])))
  unfolding repo_key
  repo_head = String.append.cons "r" "epo:" (concat (repo ∷ []))

  issue_first : compare issue_key repo_key ≡ Ordering.lt
  issue_first = rw (issue_head, repo_head, String.compare.cons-cons) refl

  repo_second : compare repo_key issue_key ≡ Ordering.gt
  repo_second = rw (issue_head, repo_head, String.compare.cons-cons) refl

  lock_keys_lem : lock_keys id repo ≡ issue_key ∷ repo_key ∷ []
  unfolding lock_keys issue_key repo_key
  lock_keys_lem = ap (λ order. sorted order issue_key repo_key) issue_first

  pub includes-issue_key : includes (lock_keys id repo) issue_key ≡ true
  includes-issue_key = rw lock_keys_lem (ground (arith, (str_eq_iff issue_key issue_key).1 refl))

  pub includes-repo_key : includes (lock_keys id repo) repo_key ≡ true
  includes-repo_key = rw lock_keys_lem (ground (arith, (str_eq_iff repo_key repo_key).1 refl))

  -- The two keys of a request differ.
  pub lock_keys-IsDistinct : IsDistinct (lock_keys id repo)
  lock_keys-IsDistinct = rw lock_keys_lem (ground (arith, other), (refl, tt))
    where
      other : (repo_key == issue_key) ≡ false
      other = ap is_eq repo_second

  pub lock_keys-full : includes (lock_keys id repo) "" ≡ false
  lock_keys-full =
      rw (lock_keys_lem, issue_head, repo_head)
        (ground (
          arith,
          filled "i" (String.◌++◌ "ssue:" (concat (id ∷ []))),
          filled "r" (String.◌++◌ "epo:" (concat (repo ∷ []))),
        ))
    where
      filled : (c : Char) (t : String) → (String.◌∷◌ c t == "") ≡ false
      filled c t = ap is_eq (String.compare.cons-nil c t)

-- Equal keys are held alike.
pub same_key : (P : String → Bool) (a b : String) → (a == b) ≡ true → P a ≡ P b
same_key P a b e = ap P ((str_eq_iff a b).0 e)

pub find-includes :
    (p : String → Bool) (keys : List String) (key : String)
    → find p keys ≡ some key
    → includes keys key ≡ true
find-includes p [] key e = ground arith
find-includes p (x ∷ xs) key e = elim (Bool-cases (p x)) [
  | inl t ↦ ground (arith, (str_eq_iff x key).1, rw t at e)
  | inr t ↦ ground (arith, find-includes p xs key, rw t at e)
]

pub includes-snoc :
    (keys : List String) (key other : String)
    → includes (keys ++ key ∷ []) other ≡ (includes keys other || key == other)
includes-snoc [] key other = ground arith
includes-snoc (k ∷ keys) key other = ground (arith, includes-snoc keys key other)

pub differ_sym : (a b : String) → (a == b) ≡ false → (b == a) ≡ false
differ_sym a b h = ground (arith, same_key (λ k. a == k) b a, (str_eq_iff a a).1 refl)
