-- ===== src/Locks/Refinement.antt =====
-- The lock on Redis beside the lock in memory, under the promise of a backend.
use vibecoding_dofe_ai.Base.{◌≡◌, ◌∙◌, sym, ap, String, List, or_else, arith}
use vibecoding_dofe_ai.Store.{Reply}
use vibecoding_dofe_ai.Locks.Backends.{Grant, granted, conflict, LockBackend}
use vibecoding_dofe_ai.Locks.Requests.{
  lock_keys, with_issue_and_repo_lock, run_granted, Ending, busy, ending,
}
use vibecoding_dofe_ai.Locks.Keys.{IsDistinct, lock_keys-IsDistinct, lock_keys-full}
use vibecoding_dofe_ai.Locks.Promise.{Answers, IsBackend, find-same}

module _ {S T A : Type 0} (b : LockBackend S) (c : LockBackend T) (h : IsBackend b)
    (i : IsBackend c) (work : S → Reply A × S) (other_work : T → Reply A × T) where
  -- The endings are equal, and the same keys are held.
  abbrev Alike : Ending A × S → Ending A × T → Type 0
  Alike (e, s) (f, t) = (e ≡ f) × ((key : String) → h.held s key ≡ i.held t key)

  module _ (keys : List String) (distinct : IsDistinct keys) (s : S) (t : T)
      (same : (key : String) → h.held s key ≡ i.held t key)
      (reply : (u : S) (v : T) → (work u).0 ≡ (other_work v).0)
      (held_kept : (u : S) (k : String) → h.held (work u).1 k ≡ h.held u k)
      (own_kept : (u : S) (k : String) → h.own (work u).1 k ≡ h.own u k)
      (other_held : (u : T) (k : String) → i.held (other_work u).1 k ≡ i.held u k)
      (other_own : (u : T) (k : String) → i.own (other_work u).1 k ≡ i.own u k) where
    run_granted-Alike :
        (f : Grant S) (g : Grant T)
        → Answers h.held h.own keys s f
        → Answers i.held i.own keys t g
        → Alike (run_granted b keys work f) (run_granted c keys other_work g)
    unfolding run_granted
    run_granted-Alike (granted u) (granted v) (e, taken, owned) (e', taken', owned') = (
      ap ending (reply u v),
      λ key. ground (
        arith,
        h.releases keys (work u).1 distinct (λ k o. own_kept u k ∙ owned k o) key,
        i.releases keys (other_work v).1 distinct (λ k o. other_own v k ∙ owned' k o) key,
        held_kept u key,
        other_held v key,
        taken key,
        taken' key,
        same key,
      ),
    )
    run_granted-Alike (granted u) (conflict k v) f g =
        absurd (ground (arith, f.0, g.0, find-same (h.held s) (i.held t) keys same))
    run_granted-Alike (conflict k u) (granted v) f g =
        absurd (ground (arith, f.0, g.0, find-same (h.held s) (i.held t) keys same))
    run_granted-Alike (conflict k u) (conflict k' v) f g = (
      ap (λ o. busy (or_else o k)) (sym f.0 ∙ find-same (h.held s) (i.held t) keys same ∙ g.0),
      λ key. f.1 key ∙ (same key ∙ sym (g.1 key)),
    )

-- Over two backends that keep the promise of a backend and hold the same keys, work under the lock
-- that gives the same reply and leaves the locks alone ends alike, refusals and the refused key
-- included, and the same keys are held afterwards.
pub with_issue_and_repo_lock-Refines :
    {S T A : Type 0} (b : LockBackend S) (c : LockBackend T) (h : IsBackend b) (i : IsBackend c)
    (issue_id target_repo : String) (work : S → Reply A × S) (other_work : T → Reply A × T) (s : S)
    (t : T)
    → ((key : String) → h.held s key ≡ i.held t key)
    → ((u : S) (v : T) → (work u).0 ≡ (other_work v).0)
    → ((u : S) (k : String) → h.held (work u).1 k ≡ h.held u k)
    → ((u : S) (k : String) → h.own (work u).1 k ≡ h.own u k)
    → ((u : T) (k : String) → i.held (other_work u).1 k ≡ i.held u k)
    → ((u : T) (k : String) → i.own (other_work u).1 k ≡ i.own u k)
    → ((with_issue_and_repo_lock b issue_id target_repo work s).0
        ≡ (with_issue_and_repo_lock c issue_id target_repo other_work t).0)
      × ((key : String)
          → h.held (with_issue_and_repo_lock b issue_id target_repo work s).1 key
            ≡ i.held (with_issue_and_repo_lock c issue_id target_repo other_work t).1 key)
unfolding with_issue_and_repo_lock
with_issue_and_repo_lock-Refines b c h i issue_id target_repo work other_work s t same reply
      held_kept own_kept other_held other_own =
    let keys = lock_keys issue_id target_repo in
    let distinct = lock_keys-IsDistinct issue_id target_repo in
    let full = lock_keys-full issue_id target_repo in
    run_granted-Alike b c h i work other_work keys distinct s t same reply held_kept own_kept
      other_held other_own (b.acquire keys s) (c.acquire keys t) (h.acquires keys s distinct full)
      (i.acquires keys t distinct full)
