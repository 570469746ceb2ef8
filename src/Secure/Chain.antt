-- ===== src/Secure/Chain.antt =====
-- The tasks of the write chain, one after the other (`enqueue` and `flush` of
-- src/utils/auth/secure-storage.ts).
use quota_shift.Prelude.{
  sym, ap, ◌∙◌, ℕ, zero, suc, String, ◌≡◌, refl, Option, none, some, List, [], ◌∷◌, length, arith,
}
use quota_shift.Secure.{
  Task, store_task, secure_task, Adapter, put, restore_to_persisted_value, take_failure,
}
use quota_shift.Secure.Services.{Services}

module _ {ℓ} {S : Type ℓ} (service : Services S) where
  -- The saving that follows a store call which succeeded.
  unfoldable pub save_after : S × Option String → S × Option String
  save_after (s, none) = service.store_save s
  save_after (s, some error) = (s, some error)

  -- The calls of one task, and their error.
  unfoldable pub call_services : Task → S → S × Option String
  unfolding save_after
  call_services (store_task key (some value)) s = save_after (service.store_set key value s)
  call_services (store_task key none) s = save_after (service.store_delete key s)
  call_services (secure_task key (some value) _) s = service.set key value s
  call_services (secure_task key none _) s = service.delete key s

-- What a task does after its calls succeeded.
unfoldable pub settle : Task → Adapter → Adapter
unfolding put
settle (store_task _ _) a = a
settle (secure_task key value _) a = record a {
  persisted_values = put key value a.persisted_values;
}

-- `rollback?.()`
unfoldable pub roll_back : Task → Adapter → Adapter
unfolding restore_to_persisted_value
roll_back (store_task _ _) a = a
roll_back (secure_task key _ revision) a = restore_to_persisted_value key revision a

-- `this.queuedFailure ??= error`
unfoldable pub first_failure : Option String → String → Option String
first_failure none error = some error
first_failure (some earlier) error = some earlier

-- The `catch` of the chain.
unfoldable pub catch_error : Task → String → Adapter → Adapter
unfolding roll_back first_failure
catch_error task error a =
    let rolled = roll_back task a in
    record rolled {
      queued_failure = first_failure rolled.queued_failure error;
      errors = error ∷ rolled.errors;
    }

unfoldable pub finish_task : Task → Option String → Adapter → Adapter
unfolding settle catch_error
finish_task task none a = settle task a
finish_task task (some error) a = catch_error task error a

module _ {ℓ} {S : Type ℓ} (service : Services S) where
  unfoldable pub run_task : Task → S → Adapter → S × Adapter
  unfolding call_services finish_task
  run_task task s a =
      let called = call_services service task s in (called.0, finish_task task called.1 a)

  -- The oldest task runs.
  unfoldable pub step : S × Adapter → S × Adapter
  unfolding run_task
  step (s, a) = elim a.write_chain [
    | [] ↦ (s, a)
    | task ∷ rest ↦ run_task task s (record a { write_chain = rest })
  ]

  unfoldable pub steps : ℕ → S × Adapter → S × Adapter
  unfolding step
  steps zero w = w
  steps (suc n) w = steps n (step w)

  -- `await this.writeChain`: every queued task runs. A task queues none, so that there is one step for each.
  unfoldable pub drain : S × Adapter → S × Adapter
  unfolding steps
  drain w = steps (length w.1.write_chain) w

  -- The failure that a flush throws, if any, and what is left.
  unfoldable pub flush : S × Adapter → Option String × S × Adapter
  unfolding drain take_failure
  flush w =
      let drained = drain w in let taken = take_failure drained.1 in (taken.0, drained.0, taken.1)

pub finish_task-write_chain :
    (task : Task) (outcome : Option String) (a : Adapter)
    → (finish_task task outcome a).write_chain ≡ a.write_chain
unfolding finish_task settle catch_error roll_back restore_to_persisted_value
finish_task-write_chain (store_task key value) none a = refl
finish_task-write_chain (secure_task key value revision) none a = refl
finish_task-write_chain (store_task key value) (some error) a = refl
finish_task-write_chain (secure_task key value revision) (some error) a = ground arith

module _ {ℓ} {S : Type ℓ} (service : Services S) where
  -- A step takes the oldest task off the chain.
  pub step-write_chain :
      (s : S) (a : Adapter) (task : Task) (rest : List Task)
      → a.write_chain ≡ task ∷ rest
      → (step service (s, a)).1.write_chain ≡ rest
  unfolding step run_task
  step-write_chain s a task rest h = rw h (
      finish_task-write_chain task (call_services service task s).1
        (record a { write_chain = rest }))

  pub steps-empty :
      (queue : List Task) (s : S) (a : Adapter)
      → a.write_chain ≡ queue
      → (steps service (length queue) (s, a)).1.write_chain ≡ []
  unfolding steps
  steps-empty [] s a h = h
  steps-empty (task ∷ queue) s a h =
      let next = step service (s, a) in
      steps-empty queue next.0 next.1 (step-write_chain s a task queue h)

  pub drain-empty : (w : S × Adapter) → (drain service w).1.write_chain ≡ []
  unfolding drain
  drain-empty (s, a) = steps-empty a.write_chain s a refl

module _ {ℓ} {S : Type ℓ} (service : Services S) where
  drain_idle : (s : S) (a : Adapter) → a.write_chain ≡ [] → drain service (s, a) ≡ (s, a)
  unfolding drain steps
  drain_idle s a idle = ap (λ (queue : List Task). steps service (length queue) (s, a)) idle

  flush_idle :
      (s : S) (a : Adapter)
      → a.write_chain ≡ []
      → a.queued_failure ≡ none
      → flush service (s, a) ≡ (none, s, a)
  unfolding flush take_failure
  flush_idle s a idle quiet =
      let restored = sym quiet in
      ap (λ (d : S × Adapter). (d.1.queued_failure, d.0, record d.1 { queued_failure = none }))
        (drain_idle s a idle)
      ∙ (λ i. (quiet i, s, record a { queued_failure = restored i }))

  -- Whatever is queued and whichever calls fail: a flush leaves no task queued, and a second flush throws
  -- nothing and leaves everything as the first one did, so that a failure is thrown once.
  pub flush-flush :
      (s : S) (a : Adapter)
      → ((flush service (s, a)).2.write_chain ≡ [])
        × (flush service ((flush service (s, a)).1, (flush service (s, a)).2)
            ≡ (none, (flush service (s, a)).1, (flush service (s, a)).2))
  unfolding flush take_failure
  flush-flush s a =
      let after = flush service (s, a) in
      let idle = drain-empty service (s, a) in (idle, flush_idle after.1 after.2 idle refl)

-- The flush of the installed adapter, if any.
unfoldable pub flush_secure_storage {ℓ} :
    {S : Type ℓ} → Services S → S × Option Adapter → Option String × S × Option Adapter
unfolding flush
flush_secure_storage service (s, none) = (none, s, none)
flush_secure_storage service (s, some a) =
    let flushed = flush service (s, a) in (flushed.0, flushed.1, some flushed.2)
