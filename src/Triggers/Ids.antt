-- ===== src/Triggers/Ids.antt =====
-- Which file a new trigger gets.
use vibecoding_dofe_ai.Base.{
  find-any, ℕ, suc, ◌≡◌, ◌∙◌, ap, refl, true, false, String, List, [], ◌∷◌, some, length, find,
  if◌then◌else◌, ◌==◌, string_eq, str_eq_iff, Bool-cases, inl, inr,
}
use vibecoding_dofe_ai.Triggers.Cron.{CronTools}
use vibecoding_dofe_ai.Triggers.Files.{
  Trigger, TriggerFiles, has_id, stored, put, read_schedule_trigger, write_schedule_trigger,
}
use vibecoding_dofe_ai.Triggers.Firing.{CreateTriggerRequest, new_trigger, create_schedule_trigger}

module _ (trigger : Trigger) where
  own_id : (trigger.id == trigger.id) ≡ true
  own_id = (str_eq_iff trigger.id trigger.id).1 refl

  pub find-put :
      (triggers : List Trigger) → find (has_id trigger.id) (put trigger triggers) ≡ some trigger
  find-put [] = rw own_id refl
  find-put (other ∷ rest) = elim (Bool-cases (other.id == trigger.id)) [
    | inl e ↦ rw (e, own_id) refl
    | inr e ↦ rw (e, find-put rest) (rw e refl)
  ]

  pub find-put-other :
      (id : String) (triggers : List Trigger)
      → (trigger.id == id) ≡ false
      → find (has_id id) (put trigger triggers) ≡ find (has_id id) triggers
  find-put-other id [] differ = rw differ refl
  find-put-other id (other ∷ rest) differ = elim (Bool-cases (other.id == trigger.id)) [
    | inl e ↦ rw (e, differ, ap (λ k. k == id) ((str_eq_iff other.id trigger.id).0 e) ∙ differ) refl
    | inr e ↦ rw (e, find-put-other id rest differ) refl
  ]

  pub length-put :
      (triggers : List Trigger)
      → length (put trigger triggers)
        ≡ (if stored trigger.id triggers then length triggers else suc (length triggers))
  length-put [] = refl
  length-put (other ∷ rest) = elim (Bool-cases (other.id == trigger.id)) [
    | inl e ↦ rw e refl
    | inr e ↦
        rw (e, length-put rest)
          (elim (Bool-cases (stored trigger.id rest)) [ inl f ↦ rw f refl | inr f ↦ rw f refl ])
  ]

module _ (tools : CronTools) (now : ℕ) (request : CreateTriggerRequest) (files : TriggerFiles) where
  -- If no stored trigger has the id that createScheduleTrigger makes from the number of triggers,
  -- then afterwards one more is stored, the new trigger is read back under its id, and each other
  -- id reads as before.
  pub create_schedule_trigger-adds :
      stored (new_trigger tools now files request).id files.triggers ≡ false
      → (length (create_schedule_trigger tools now request files).1.triggers
          ≡ suc (length files.triggers))
        × (read_schedule_trigger
              (new_trigger tools now files request).id
              (create_schedule_trigger tools now request files).1
            ≡ some (new_trigger tools now files request))
        × ((id : String)
            → ((new_trigger tools now files request).id == id) ≡ false
            → read_schedule_trigger id (create_schedule_trigger tools now request files).1
              ≡ read_schedule_trigger id files)
  unfolding create_schedule_trigger write_schedule_trigger read_schedule_trigger
  create_schedule_trigger-adds free =
      let trigger = new_trigger tools now files request in
      (
        length-put trigger files.triggers ∙ rw free refl,
        find-put trigger files.triggers,
        λ id differ. find-put-other trigger id files.triggers differ,
      )

  -- If a stored trigger has the id that createScheduleTrigger makes from the number of triggers,
  -- the number of stored triggers stays the same and the id reads as the new trigger.
  pub create_schedule_trigger-overwrites :
      (old : Trigger)
      → read_schedule_trigger (new_trigger tools now files request).id files ≡ some old
      → (length (create_schedule_trigger tools now request files).1.triggers
          ≡ length files.triggers)
        × (read_schedule_trigger
              (new_trigger tools now files request).id
              (create_schedule_trigger tools now request files).1
            ≡ some (new_trigger tools now files request))
  unfolding create_schedule_trigger write_schedule_trigger read_schedule_trigger
  create_schedule_trigger-overwrites old taken =
      let trigger = new_trigger tools now files request in
      (
        length-put trigger files.triggers
            ∙ rw (find-any (has_id trigger.id) files.triggers old taken) refl,
        find-put trigger files.triggers,
      )
