-- ===== src/Triggers/Failures.antt =====
-- How often a trigger may fail.
use vibecoding_dofe_ai.Base.{
  ap, str_eq_iff, find-passes, ℕ, zero, suc, ◌+◌, ◌≡◌, ◌<◌, ◌∙◌, refl, Bool, true, false, String,
  List, [], ◌∷◌, Option, none, some, All, filter, find, ltb, leb, find-All, if◌then◌else◌, ◌==◌,
  string_eq, arith, Bool-cases, inl, inr,
}
use vibecoding_dofe_ai.Store.{Error, Reply, answer, refusal}
use vibecoding_dofe_ai.Triggers.Cron.{
  CronTools, NextRun, no_run, invalid_date, run_at, compute_next_run,
}
use vibecoding_dofe_ai.Triggers.Files.{
  TriggerStatus, active, is_active, is_paused, error_status, Trigger, TriggerFiles, has_id, put,
  write_schedule_trigger, read_schedule_trigger, write_trigger_execution,
}
use vibecoding_dofe_ai.Triggers.Firing.{
  IssuePort, fire_schedule_trigger, fire_trigger, fire_with, fired_trigger, failed_trigger,
  get_schedule_trigger, on_trigger,
}
use vibecoding_dofe_ai.Triggers.Ids.{find-put}
use vibecoding_dofe_ai.Triggers.Scheduler.{
  Counts, Tick, ticked, stopped, files_after, set_next_run, process_due, process_triggers,
  process_tick,
}

-- An active trigger has failed less often than it may.
abbrev pub IsWithin : Trigger → Type 0
IsWithin t = (0 < t.max_failures) × (is_active t.status ≡ true → t.failure_count < t.max_failures)

abbrev pub AllWithin : TriggerFiles → Type 0
AllWithin files = All IsWithin files.triggers

put-AllWithin :
    (t : Trigger) (triggers : List Trigger)
    → IsWithin t
    → All IsWithin triggers
    → All IsWithin (put t triggers)
put-AllWithin t [] h all = (h, tt)
put-AllWithin t (other ∷ rest) h (o, all) = elim (Bool-cases (other.id == t.id)) [
  | inl e ↦ rw e (h, all)
  | inr e ↦ rw e (o, put-AllWithin t rest h all)
]

abbrev pub files_of : Tick → TriggerFiles
files_of (ticked counts files) = files
files_of (stopped counts files) = files

filter-All :
    (q : Trigger → Bool) (triggers : List Trigger)
    → All IsWithin triggers
    → All IsWithin (filter q triggers)
filter-All q [] all = tt
filter-All q (t ∷ rest) (h, all) = elim (Bool-cases (q t)) [
  | inl e ↦ rw e (h, filter-All q rest all)
  | inr e ↦ rw e (filter-All q rest all)
]

-- The status of a trigger that was active and has failed `n` times more.
counted : (t : Trigger) (n : ℕ) → TriggerStatus
counted t n = if ltb (t.failure_count + n) t.max_failures then active else error_status

counted-is_paused : (t : Trigger) (n : ℕ) → is_paused (counted t n) ≡ false
unfolding counted
counted-is_paused t n = elim (Bool-cases (ltb (t.failure_count + n) t.max_failures)) [
  | inl e ↦ rw e refl
  | inr e ↦ rw e refl
]

module _ (tools : CronTools) (port : IssuePort) (now : ℕ) (reason : Option String) where
  fired-IsWithin : (t : Trigger) → IsWithin t → IsWithin (fired_trigger tools now t)
  unfolding fired_trigger
  fired-IsWithin t h = (h.0, λ a. h.0)

  failed-IsWithin : (t : Trigger) → IsWithin t → IsWithin (failed_trigger now t)
  unfolding failed_trigger
  failed-IsWithin t h = elim (Bool-cases (leb t.max_failures (suc t.failure_count))) [
    | inl e ↦ rw e (h.0, λ a. cc)
    | inr e ↦ rw e (h.0, λ a. ground (arith, e))
  ]

  fire_with-AllWithin :
      (files : TriggerFiles) (t : Trigger) (r : Reply String)
      → AllWithin files
      → IsWithin t
      → AllWithin (fire_with tools now reason files t r).1
  unfolding fire_with write_schedule_trigger write_trigger_execution
  fire_with-AllWithin files t (answer id) all h =
      put-AllWithin (fired_trigger tools now t) files.triggers (fired-IsWithin t h) all
  fire_with-AllWithin files t (refusal e) all h =
      put-AllWithin (failed_trigger now t) files.triggers (failed-IsWithin t h) all

  fire_trigger-AllWithin :
      (files : TriggerFiles) (t : Trigger)
      → AllWithin files
      → IsWithin t
      → AllWithin (fire_trigger tools port now reason files t).1
  unfolding fire_trigger
  fire_trigger-AllWithin files t all h = elim (Bool-cases (is_paused t.status)) [
    | inl e ↦ rw e all
    | inr e ↦ rw e (fire_with-AllWithin files t (port t files) all h)
  ]

  on_found-AllWithin :
      (id : String) (files : TriggerFiles) (o : Option Trigger)
      → find (has_id id) files.triggers ≡ o
      → AllWithin files
      → AllWithin (
          files_after
            (on_trigger (get_schedule_trigger id o) (fire_trigger tools port now reason files))
            files)
  unfolding get_schedule_trigger
  on_found-AllWithin id files none e all = all
  on_found-AllWithin id files (some t) e all =
      fire_trigger-AllWithin files t all (find-All IsWithin (has_id id) files.triggers t e all)

  fire-AllWithin :
      (id : String) (files : TriggerFiles)
      → AllWithin files
      → AllWithin (files_after (fire_schedule_trigger tools port now id reason files) files)
  unfolding fire_schedule_trigger read_schedule_trigger
  fire-AllWithin id files all =
      on_found-AllWithin id files (find (has_id id) files.triggers) refl all

  process_due-AllWithin :
      (next : Counts → TriggerFiles → Tick)
      → ((counts : Counts) (files : TriggerFiles)
          → AllWithin files
          → AllWithin (files_of (next counts files)))
      → (t : Trigger) (due : Option ℕ) (run : NextRun) (counts : Counts) (files : TriggerFiles)
      → compute_next_run tools t.cron_expression now ≡ run
      → IsWithin t
      → AllWithin files
      → AllWithin (files_of (process_due tools port now reason next t due counts files))
  unfolding process_due set_next_run write_schedule_trigger
  process_due-AllWithin next on t none no_run counts files e h all = rw e (on _ files all)
  process_due-AllWithin next on t none invalid_date counts files e h all = rw e all
  process_due-AllWithin next on t none (run_at time) counts files e h all =
      rw e (on _ _ (put-AllWithin _ files.triggers h all))
  process_due-AllWithin next on t (some due) run counts files e h all =
      elim (Bool-cases (ltb now due)) [
        | inl f ↦ rw f (on _ files all)
        | inr f ↦ rw f (on _ _ (fire-AllWithin t.id files all))
      ]

  process_triggers-AllWithin :
      (triggers : List Trigger) (counts : Counts) (files : TriggerFiles)
      → All IsWithin triggers
      → AllWithin files
      → AllWithin (files_of (process_triggers tools port now reason triggers counts files))
  unfolding process_triggers
  process_triggers-AllWithin [] counts files hs all = all
  process_triggers-AllWithin (t ∷ rest) counts files (h, hs) all =
      process_due-AllWithin (process_triggers tools port now reason rest)
        (λ counts files. process_triggers-AllWithin rest counts files hs) t t.next_run_at _ counts
        files refl h all

  -- If every active trigger has failed less often than its limit, and limits are positive, this is
  -- so after a tick too, whatever the port answers.
  pub process_tick-AllWithin :
      (files : TriggerFiles)
      → AllWithin files
      → AllWithin (files_of (process_tick tools port now reason files))
  unfolding process_tick
  process_tick-AllWithin files all =
      process_triggers-AllWithin (filter (λ (t : Trigger). is_active t.status) files.triggers) _
        files (filter-All (λ (t : Trigger). is_active t.status) files.triggers all) all

  -- The trigger is fired `n` times.
  abbrev pub fires : ℕ → String → TriggerFiles → TriggerFiles
  fires zero id files = files
  fires (suc n) id files =
      let before = fires n id files in
      files_after (fire_schedule_trigger tools port now id reason before) before

  failed-counted :
      (t : Trigger) (n : ℕ) (last : Trigger)
      → last.failure_count ≡ t.failure_count + n
      → last.max_failures ≡ t.max_failures
      → last.status ≡ counted t n
      → (failed_trigger now last).status ≡ counted t (suc n)
  unfolding failed_trigger counted
  failed-counted t n last count limit status =
      elim (Bool-cases (leb last.max_failures (suc last.failure_count))) [
        | inl e ↦ rw e (ground (arith, count, limit, e))
        | inr e ↦ rw e (ground (arith, count, limit, status, e))
      ]

  -- A trigger that has failed `n` times more, and was active before.
  record HasFailed (t : Trigger) (n : ℕ) (id : String) (files : TriggerFiles) : Type 0 where
    last : Trigger
    read : read_schedule_trigger id files ≡ some last
    count : last.failure_count ≡ t.failure_count + n
    limit : last.max_failures ≡ t.max_failures
    status : last.status ≡ counted t n

  fire-refused :
      (t : Trigger) (id : String) (files : TriggerFiles) (e : Error)
      → read_schedule_trigger id files ≡ some t
      → is_paused t.status ≡ false
      → port t files ≡ refusal e
      → files_after (fire_schedule_trigger tools port now id reason files) files
        ≡ write_schedule_trigger (failed_trigger now t) files
  unfolding fire_schedule_trigger get_schedule_trigger fire_trigger fire_with
  fire-refused t id files e found going refuses = rw (found, going, refuses) refl

  read-failed :
      (t : Trigger) (id : String) (files : TriggerFiles)
      → read_schedule_trigger id files ≡ some t
      → read_schedule_trigger id (write_schedule_trigger (failed_trigger now t) files)
        ≡ some (failed_trigger now t)
  unfolding read_schedule_trigger write_schedule_trigger failed_trigger
  read-failed t id files found =
      rw⁻¹ ((str_eq_iff t.id id).0 (find-passes (has_id id) files.triggers t found))
        (find-put (failed_trigger now t) files.triggers)

  module _
      (refused : (t : Trigger) (files : TriggerFiles) → (e : Error) × (port t files ≡ refusal e))
      (t : Trigger) (id : String) where
    fire-HasFailed :
        (n : ℕ) (files : TriggerFiles)
        → HasFailed t n id files
        → HasFailed t
            (suc n)
            id
            (files_after (fire_schedule_trigger tools port now id reason files) files)
    unfolding failed_trigger
    fire-HasFailed n files h =
        let (e, refuses) = refused h.last files in
        let going = ap is_paused h.status ∙ counted-is_paused t n in
        rw (fire-refused h.last id files e h.read going refuses) (record {
          last = failed_trigger now h.last;
          read = read-failed h.last id files h.read;
          count = omega (arith, h.count);
          limit = h.limit;
          status = failed-counted t n h.last h.count h.limit h.status;
        })

    fires-HasFailed :
        (n : ℕ) (files : TriggerFiles)
        → read_schedule_trigger id files ≡ some t
        → t.status ≡ active
        → t.failure_count < t.max_failures
        → HasFailed t n id (fires n id files)
    unfolding counted
    fires-HasFailed zero files found going below = record {
      last = t;
      read = found;
      count = omega arith;
      limit = refl;
      status = going ∙ ground (arith, below);
    }
    fires-HasFailed (suc n) files found going below =
        fire-HasFailed n (fires n id files) (fires-HasFailed n files found going below)

    -- If the creation of issues is always refused, a trigger that is active and below its limit is
    -- stored after any number n of fires, with n failures more than before. Its status is active as
    -- long as these are below the limit, and error from then on, where each fire still counts.
    pub fires-status :
        (n : ℕ) (files : TriggerFiles)
        → read_schedule_trigger id files ≡ some t
        → t.status ≡ active
        → t.failure_count < t.max_failures
        → (last : Trigger) × (read_schedule_trigger id (fires n id files) ≡ some last)
          × (last.failure_count ≡ t.failure_count + n)
          × (last.status
              ≡ (if ltb (t.failure_count + n) t.max_failures then active else error_status))
    unfolding counted
    fires-status n files found going below =
        let h = fires-HasFailed n files found going below in (h.last, h.read, h.count, h.status)
