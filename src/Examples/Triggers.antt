-- ===== src/Examples/Triggers.antt =====
-- The theorems on schedule triggers, on concrete ones.
use vibecoding_dofe_ai.Base.{
  ℕ, ◌+◌, ◌≡◌, ◌<◌, ◌≤◌, refl, false, String, List, [], ◌∷◌, none, some, length, ltb, if◌then◌else◌,
  ◌==◌, string_eq, arith, decimal,
}
use vibecoding_dofe_ai.Store.{failure}
use vibecoding_dofe_ai.Triggers.{
  stored, compute_next_cron_time, next_of_parts, process_tick, stopped, Trigger,
  read_schedule_trigger, create_schedule_trigger, new_trigger, next_schedule_trigger_seq, active,
  error_status,
}
use vibecoding_dofe_ai.Triggers.Times.{compute_next_cron_time-daily, compute_next_cron_time-weekly}
use vibecoding_dofe_ai.Triggers.Ids.{
  create_schedule_trigger-adds, create_schedule_trigger-overwrites,
}
use vibecoding_dofe_ai.Triggers.Ticks.{IsCounted, process_tick-IsCounted, process_tick-stopped}
use vibecoding_dofe_ai.Triggers.Failures.{
  AllWithin, files_of, fires, process_tick-AllWithin, fires-status,
}
use vibecoding_dofe_ai.Samples.Triggers.{
  cron_tools, sample_trigger, trigger_files, sample_request, refusing_port, answering_port,
}

-- The second Thursday, 8:00
abbrev thursday : ℕ
thursday = 633600000

daily_example :
    (next : ℕ) × (compute_next_cron_time cron_tools "30 9 * * *" thursday ≡ some next)
    × (thursday < next)
    × (next ≤ thursday + 86400000)
daily_example =
    compute_next_cron_time-daily cron_tools "30 9 * * *" thursday 9 30 "30" "9" [] refl refl
      (omega arith) (omega arith) refl

weekly_example :
    (next : ℕ) × (compute_next_cron_time cron_tools "30 9 * * 1" thursday ≡ some next)
    × (next ≤ thursday)
weekly_example =
    compute_next_cron_time-weekly cron_tools "30 9 * * 1" thursday 9 30 "30" "9" [] refl refl
      (omega arith) (omega arith) "1" 1 refl refl refl (omega arith) (omega arith)

ticks_example : IsCounted 1 (
    process_tick cron_tools answering_port thursday none
      (trigger_files (sample_trigger "sched-1" "30 9 * * *" (some 5) ∷ [])))
ticks_example =
    process_tick-IsCounted cron_tools answering_port thursday none
      (trigger_files (sample_trigger "sched-1" "30 9 * * *" (some 5) ∷ []))

no_next_yet : none ≡ compute_next_cron_time cron_tools "*/5 * * * *" 0
unfolding compute_next_cron_time next_of_parts
no_next_yet = refl

stopped_example :
    process_tick cron_tools answering_port thursday none (
      trigger_files (
        sample_trigger "sched-1" "*/5 * * * *" none
        ∷ sample_trigger "sched-2" "30 9 * * *" (some 5)
        ∷ []))
    ≡ stopped
        (record { fired = 0; skipped = 0; errors = 0 })
        (trigger_files (
          sample_trigger "sched-1" "*/5 * * * *" none
          ∷ sample_trigger "sched-2" "30 9 * * *" (some 5)
          ∷ []))
stopped_example =
    process_tick-stopped cron_tools answering_port thursday none "*/5 * * * *" "*/5" "*" [] refl
      refl
      (trigger_files (
        sample_trigger "sched-1" "*/5 * * * *" none
        ∷ sample_trigger "sched-2" "30 9 * * *" (some 5)
        ∷ []))
      (sample_trigger "sched-1" "*/5 * * * *" none)
      (sample_trigger "sched-2" "30 9 * * *" (some 5) ∷ []) 0 refl refl no_next_yet

within_example : AllWithin (
    files_of (
      process_tick cron_tools refusing_port thursday none
        (trigger_files (sample_trigger "sched-1" "30 9 * * *" (some 5) ∷ []))))
within_example =
    process_tick-AllWithin cron_tools refusing_port thursday none
      (trigger_files (sample_trigger "sched-1" "30 9 * * *" (some 5) ∷ []))
      ((omega arith, λ a. omega arith), tt)

read_here :
    read_schedule_trigger "sched-1"
      (trigger_files (sample_trigger "sched-1" "30 9 * * *" (some 5) ∷ []))
    ≡ some (sample_trigger "sched-1" "30 9 * * *" (some 5))
unfolding read_schedule_trigger
read_here = refl

fires_example :
    (last : Trigger) × (read_schedule_trigger "sched-1" (
        fires cron_tools refusing_port thursday none 4 "sched-1"
          (trigger_files (sample_trigger "sched-1" "30 9 * * *" (some 5) ∷ [])))
      ≡ some last)
    × (last.failure_count ≡ 0 + 4)
    × (last.status ≡ (if ltb (0 + 4) 3 then active else error_status))
fires_example =
    fires-status cron_tools refusing_port thursday none (λ t files. (failure "no workspace", refl))
      (sample_trigger "sched-1" "30 9 * * *" (some 5)) "sched-1" 4
      (trigger_files (sample_trigger "sched-1" "30 9 * * *" (some 5) ∷ [])) read_here refl
      (omega arith)

free_here : stored (new_trigger cron_tools thursday (trigger_files []) sample_request).id [] ≡ false
free_here = refl

adds_example :
    (length
        (create_schedule_trigger cron_tools thursday sample_request (trigger_files [])).1.triggers
      ≡ 1)
    × (read_schedule_trigger
          (new_trigger cron_tools thursday (trigger_files []) sample_request).id
          (create_schedule_trigger cron_tools thursday sample_request (trigger_files [])).1
        ≡ some (new_trigger cron_tools thursday (trigger_files []) sample_request))
    × ((id : String)
        → ((new_trigger cron_tools thursday (trigger_files []) sample_request).id == id) ≡ false
        → read_schedule_trigger id
            (create_schedule_trigger cron_tools thursday sample_request (trigger_files [])).1
          ≡ read_schedule_trigger id (trigger_files []))
adds_example =
    create_schedule_trigger-adds cron_tools thursday sample_request (trigger_files []) free_here

-- What is left of two triggers once the first is deleted.
abbrev second_left : List Trigger
second_left = sample_trigger "sched-2" "30 9 * * *" (some 5) ∷ []

taken_here :
    read_schedule_trigger
      (new_trigger cron_tools thursday (trigger_files second_left) sample_request).id
      (trigger_files second_left)
    ≡ some (sample_trigger "sched-2" "30 9 * * *" (some 5))
unfolding read_schedule_trigger new_trigger next_schedule_trigger_seq decimal
taken_here = refl

overwrites_example :
    (length
        (create_schedule_trigger cron_tools thursday sample_request
          (trigger_files second_left)).1.triggers
      ≡ 1)
    × (read_schedule_trigger
          (new_trigger cron_tools thursday (trigger_files second_left) sample_request).id
          (create_schedule_trigger cron_tools thursday sample_request (trigger_files second_left)).1
        ≡ some (new_trigger cron_tools thursday (trigger_files second_left) sample_request))
overwrites_example =
    create_schedule_trigger-overwrites cron_tools thursday sample_request
      (trigger_files second_left) (sample_trigger "sched-2" "30 9 * * *" (some 5)) taken_here
