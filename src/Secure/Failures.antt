-- ===== src/Secure/Failures.antt =====
-- Which failure a flush throws (`enqueue` and `flush` of src/utils/auth/secure-storage.ts).
use quota_shift.Prelude.{
  String, ◌≡◌, refl, ap, ◌∙◌, Option, none, some, List, [], ◌∷◌, length, arith,
}
use quota_shift.Secure.{
  Task, store_task, secure_task, Adapter, take_failure, restore_to_persisted_value,
}
use quota_shift.Secure.Services.{Services}
use quota_shift.Secure.Chain.{
  call_services, finish_task, settle, catch_error, roll_back, first_failure, run_task, step, steps,
  drain, flush, finish_task-write_chain,
}

module _ {ℓ} {S : Type ℓ} (service : Services S) where
  -- The errors of the tasks' calls, in the order of the tasks.
  unfoldable pub failures : List Task → S → List String
  unfolding call_services
  failures [] s = []
  failures (task ∷ queue) s =
      let called = call_services service task s in
      elim called.1 [
        | none ↦ failures queue called.0
        | some error ↦ error ∷ failures queue called.0
      ]

-- The failure that is pending, or the first of those that follow.
unfoldable pub earliest : Option String → List String → Option String
earliest (some error) later = some error
earliest none [] = none
earliest none (error ∷ later) = some error

finish_task-queued :
    (task : Task) (outcome : Option String) (a : Adapter)
    → (finish_task task outcome a).queued_failure ≡ (elim outcome [
      | none ↦ a.queued_failure
      | some error ↦ first_failure a.queued_failure error
    ])
unfolding finish_task settle catch_error roll_back restore_to_persisted_value
finish_task-queued (store_task key value) none a = refl
finish_task-queued (secure_task key value n) none a = refl
finish_task-queued (store_task key value) (some error) a = refl
finish_task-queued (secure_task key value n) (some error) a = ground arith

earliest-first_failure :
    (queued : Option String) (error : String) (later : List String)
    → earliest (first_failure queued error) later ≡ earliest queued (error ∷ later)
unfolding earliest first_failure
earliest-first_failure none error later = refl
earliest-first_failure (some e) error later = refl

earliest_nil : (queued : Option String) → queued ≡ earliest queued []
unfolding earliest
earliest_nil none = refl
earliest_nil (some e) = refl

earliest_outcome :
    (outcome queued : Option String) (later : List String)
    → earliest (elim outcome [ none ↦ queued | some error ↦ first_failure queued error ]) later
      ≡ earliest queued (elim outcome [ none ↦ later | some error ↦ error ∷ later ])
earliest_outcome none queued later = refl
earliest_outcome (some error) queued later = earliest-first_failure queued error later

module _ {ℓ} {S : Type ℓ} (service : Services S) where
  step_task :
      (s : S) (a : Adapter) (task : Task) (rest : List Task)
      → a.write_chain ≡ task ∷ rest
      → step service (s, a) ≡ run_task service task s (record a { write_chain = rest })
  unfolding step
  step_task s a task rest e =
      ap
        (λ queue. elim queue as (λ _. S × Adapter) [
          | [] ↦ (s, a)
          | next ∷ later ↦ run_task service next s (record a { write_chain = later })
        ])
        e

  steps-failures :
      (queue : List Task) (s : S) (a : Adapter)
      → a.write_chain ≡ queue
      → (steps service (length queue) (s, a)).1.queued_failure
        ≡ earliest a.queued_failure (failures service queue s)
  unfolding steps failures run_task
  steps-failures [] s a e = earliest_nil a.queued_failure
  steps-failures (task ∷ queue) s a e =
      let b = record a { write_chain = queue } in
      let called = call_services service task s in
      let next = finish_task task called.1 b in
      let rest = steps-failures queue called.0 next (finish_task-write_chain task called.1 b) in
      ap (λ w. (steps service (length queue) w).1.queued_failure) (step_task s a task queue e)
      ∙ (rest
          ∙ (ap (λ f. earliest f (failures service queue called.0))
                (finish_task-queued task called.1 b)
              ∙ earliest_outcome called.1 a.queued_failure (failures service queue called.0)))

  -- A flush throws the failure that was pending, or else the error of the first task that fails.
  pub flush-first_failure :
      (s : S) (a : Adapter)
      → (flush service (s, a)).0 ≡ earliest a.queued_failure (failures service a.write_chain s)
  unfolding flush drain take_failure
  flush-first_failure s a = steps-failures a.write_chain s a refl
