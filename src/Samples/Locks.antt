-- ===== src/Samples/Locks.antt =====
-- A Redis server that keeps its keys in a list, two requests for one repository, and a third for
-- another.
use vibecoding_dofe_ai.Base.{
  ℕ, zero, suc, ◌≡◌, refl, Bool, true, false, not, String, List, [], ◌∷◌, Option, none, some,
  filter, includes, is_some, if◌then◌else◌, ◌==◌, string_eq, str_eq_iff, Bool-cases, inl, inr,
}
use vibecoding_dofe_ai.Locks.{RedisClient, RedisOptions, IsRedis}
use vibecoding_dofe_ai.Locks.Keys.{same_key, differ_sym}
use vibecoding_dofe_ai.Locks.Sharing.{Request, System, begin, move, Reach, start, later}

abbrev pub Shelf : Type 0
Shelf = List (String × String)

abbrev pub shelf_get : String → Shelf → Option String
shelf_get key [] = none
shelf_get key ((k, v) ∷ shelf) = if k == key then some v else shelf_get key shelf

abbrev pub shelf_set : (key value : String) → ℕ → Shelf → Bool × Shelf
shelf_set key value ttl_ms shelf =
    if is_some (shelf_get key shelf) then (false, shelf) else (true, (key, value) ∷ shelf)

abbrev pub shelf_del : List String → Shelf → Shelf
shelf_del keys shelf = filter (λ (entry : String × String). not (includes keys entry.0)) shelf

abbrev pub shelf_client : RedisClient Shelf
shelf_client = record { set_nx = shelf_set; get = shelf_get; del = shelf_del }

own_key : (key : String) → (key == key) ≡ true
own_key key = (str_eq_iff key key).1 refl

del_gone :
    (keys : List String) (key : String) (shelf : Shelf)
    → includes keys key ≡ true
    → shelf_get key (shelf_del keys shelf) ≡ none
del_gone keys key [] h = refl
del_gone keys key ((k, v) ∷ shelf) h = elim (Bool-cases (k == key)) [
  | inl e ↦ rw (same_key (includes keys) k key e, h) (del_gone keys key shelf h)
  | inr e ↦ elim (Bool-cases (includes keys k)) [
    | inl f ↦ rw f (del_gone keys key shelf h)
    | inr f ↦ rw (f, e) (del_gone keys key shelf h)
  ]
]

del_other :
    (keys : List String) (key : String) (shelf : Shelf)
    → includes keys key ≡ false
    → shelf_get key (shelf_del keys shelf) ≡ shelf_get key shelf
del_other keys key [] h = refl
del_other keys key ((k, v) ∷ shelf) h = elim (Bool-cases (k == key)) [
  | inl e ↦ rw (same_key (includes keys) k key e, h, e) refl
  | inr e ↦ elim (Bool-cases (includes keys k)) [
    | inl f ↦ rw (f, e) (del_other keys key shelf h)
    | inr f ↦ rw (f, e) (del_other keys key shelf h)
  ]
]

set_other :
    (key value other : String) (ttl_ms : ℕ) (shelf : Shelf)
    → (other == key) ≡ false
    → shelf_get other (shelf_set key value ttl_ms shelf).1 ≡ shelf_get other shelf
set_other key value other ttl_ms shelf e = elim (Bool-cases (is_some (shelf_get key shelf))) [
  | inl f ↦ rw f refl
  | inr f ↦ rw f (rw (differ_sym other key e) refl)
]

pub shelf-IsRedis : IsRedis shelf_client
shelf-IsRedis = record {
  set_nx_free = λ key value ttl_ms s e. rw e (refl, rw (own_key key) refl);
  set_nx_held = λ key value ttl_ms s e. rw e refl;
  set_nx_other = set_other;
  del_gone = del_gone;
  del_other = del_other;
}

abbrev pub sample_options : RedisOptions
sample_options = record { ttl_ms = 60000; holder_id = "loops-1" }

-- The first two ask for one repository.
abbrev pub sample_requests : ℕ → Request
sample_requests zero = record {
  options = sample_options;
  issue_id = "issue-1";
  target_repo = "web";
}
sample_requests (suc zero) = record {
  options = record { ttl_ms = 60000; holder_id = "loops-2" };
  issue_id = "issue-2";
  target_repo = "web";
}
sample_requests (suc (suc n)) = record {
  options = sample_options;
  issue_id = "issue-3";
  target_repo = "api";
}

-- The requests make their steps in this order, the last of the list first.
abbrev pub run_moves : List ℕ → System Shelf
run_moves [] = begin shelf_client sample_requests []
run_moves (i ∷ moves) = move shelf_client sample_requests i (run_moves moves)

pub run_moves-Reach : (moves : List ℕ) → Reach shelf_client sample_requests (run_moves moves)
run_moves-Reach [] = start (λ key. refl)
run_moves-Reach (i ∷ moves) = later i (run_moves-Reach moves)

-- The first request is at work, the second was refused.
abbrev pub one_works : List ℕ
one_works = 0 ∷ 1 ∷ 1 ∷ 1 ∷ 0 ∷ 0 ∷ []

-- The first request has ended.
abbrev pub one_ended : List ℕ
one_ended = 0 ∷ 0 ∷ 0 ∷ 0 ∷ 0 ∷ 0 ∷ 0 ∷ 0 ∷ 0 ∷ []
