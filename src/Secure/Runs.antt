-- ===== src/Secure/Runs.antt =====
-- Runs of the adapter beside its services: calls of its client and steps of its chain, in any order
-- (src/utils/auth/secure-storage.ts).
use quota_shift.Prelude.{
  ℕ, zero, suc, String, ◌≡◌, refl, ap, ◌∙◌, Bool, true, Option, none, some, List, [], ◌∷◌, lookup,
  if◌then◌else◌, ◌==◌, length, sym, Option-cases, List-cases, inl, inr,
}
use quota_shift.Secure.{
  Task, store_task, secure_task, Adapter, get_item, is_sensitive_storage_key, set_secure_item,
  remove_secure_item, clear_storage, take_failure,
}
use quota_shift.Secure.Services.{Services, Observed}
use quota_shift.Secure.Chain.{
  call_services, save_after, finish_task, settle, catch_error, roll_back, run_task, step, steps,
  drain, flush, drain-empty,
}
use quota_shift.Secure.Settled.{Settled, pending, lookup-put}
use quota_shift.Secure.Finishing.{restore-untouched, finish_task-Settled}
use quota_shift.Secure.Operations.{set-Settled, remove-Settled, clear-Settled}
use quota_shift.Secure.Access.{
  get_item-sensitive, Unwritten, set-Unwritten, remove-Unwritten, clear-Unwritten,
}

-- What can happen: a call of the client, or the next task of the chain.
pub data Event : Type 0 where
  set_call : String → String → Event
  remove_call : String → Event
  clear_call : Event
  task_step : Event
  flush_call : Event

module _ {ℓ} {S : Type ℓ} (service : Services S) (store_backed : String → Bool) where
  unfoldable pub perform : Event → S × Adapter → S × Adapter
  perform (set_call key value) (s, a) = (s, set_secure_item store_backed key value a)
  perform (remove_call key) (s, a) = (s, remove_secure_item store_backed key a)
  perform clear_call (s, a) = (s, clear_storage a)
  perform task_step w = step service w
  perform flush_call w = let flushed = flush service w in (flushed.1, flushed.2)

  unfoldable pub run : List Event → S × Adapter → S × Adapter
  unfolding perform
  run [] w = w
  run (event ∷ events) w = run events (perform event w)

-- What holds of a key between two events: its tasks are settled, and `persisted_values` is what the
-- backend keeps.
pub record Sound {ℓ} {S : Type ℓ} {service : Services S} (seen : Observed service) (key : String)
    (w : S × Adapter) : Type 0 where
  pub writable : w.1.native.writable ≡ true
  pub settled : Settled key w.1
  pub persisted : lookup key w.1.persisted_values ≡ seen.kept key w.0

module _ {ℓ} {S : Type ℓ} (service : Services S) (seen : Observed service) where
  saved_apart :
      (key : String) (called : S × Option String)
      → seen.kept key (save_after service called).0 ≡ seen.kept key called.0
  unfolding save_after
  saved_apart key (s, none) = seen.store_save_apart key s
  saved_apart key (s, some error) = refl

  -- A store task leaves the backend.
  store_apart :
      (key name : String) (value : Option String) (s : S)
      → seen.kept key (call_services service (store_task name value) s).0 ≡ seen.kept key s
  unfolding call_services
  store_apart key name none s =
      saved_apart key (service.store_delete name s) ∙ seen.store_delete_apart name key s
  store_apart key name (some value) s =
      saved_apart key (service.store_set name value s) ∙ seen.store_set_apart name value key s

  -- A secure task changes the backend at its key where it succeeds, and nowhere where it fails.
  secure_ok :
      (key name : String) (value : Option String) (n : ℕ) (s : S)
      → (call_services service (secure_task name value n) s).1 ≡ none
      → seen.kept key (call_services service (secure_task name value n) s).0
        ≡ (if name == key then value else seen.kept key s)
  unfolding call_services
  secure_ok key name none n s e = seen.delete_ok name key s e
  secure_ok key name (some value) n s e = seen.set_ok name value key s e

  secure_failed :
      (key name error : String) (value : Option String) (n : ℕ) (s : S)
      → (call_services service (secure_task name value n) s).1 ≡ some error
      → seen.kept key (call_services service (secure_task name value n) s).0 ≡ seen.kept key s
  unfolding call_services
  secure_failed key name error none n s e = seen.delete_failed name key error s e
  secure_failed key name error (some value) n s e = seen.set_failed name value key error s e

  -- `persisted_values` follows the backend through a task.
  run_task-persisted :
      (key : String) (task : Task) (s : S) (a : Adapter)
      → lookup key a.persisted_values ≡ seen.kept key s
      → lookup key (run_task service task s a).1.persisted_values
        ≡ seen.kept key (run_task service task s a).0
  unfolding run_task finish_task settle
  run_task-persisted key (store_task name value) s a h =
      elim (Option-cases (call_services service (store_task name value) s).1) [
        | inl e ↦ rw e (h ∙ sym (store_apart key name value s))
        | inr (error, e) ↦ rw e (h ∙ sym (store_apart key name value s))
      ]
  run_task-persisted key (secure_task name value n) s a h =
      elim (Option-cases (call_services service (secure_task name value n) s).1) [
        | inl e ↦
            rw (e, secure_ok key name value n s e, lookup-put name key value a.persisted_values, h)
              refl
        | inr (error, e) ↦
            rw (e, secure_failed key name error value n s e)
              (ap (λ m. lookup key m) (restore-untouched name n a).2 ∙ h)
      ]

finish_task-native :
    (task : Task) (outcome : Option String) (a : Adapter)
    → (finish_task task outcome a).native ≡ a.native
unfolding finish_task settle catch_error roll_back
finish_task-native (store_task name value) none a = refl
finish_task-native (secure_task name value n) none a = refl
finish_task-native (store_task name value) (some error) a = refl
finish_task-native (secure_task name value n) (some error) a = (restore-untouched name n a).3

module _ {ℓ} {S : Type ℓ} (service : Services S) (seen : Observed service) where
  step_task-Sound :
      (key : String) (task : Task) (rest : List Task) (s : S) (a : Adapter)
      → a.write_chain ≡ task ∷ rest
      → Sound seen key (s, a)
      → Sound seen key (run_task service task s (record a { write_chain = rest }))
  unfolding run_task
  step_task-Sound key task rest s a e h = record {
    writable =
        ap (λ n. n.writable) (finish_task-native task _ (record a { write_chain = rest }))
        ∙ h.writable;
    settled = finish_task-Settled key task _ rest a e h.settled;
    persisted =
        run_task-persisted service seen key task s (record a { write_chain = rest }) h.persisted;
  }

  pub step-Sound :
      (key : String) (w : S × Adapter) → Sound seen key w → Sound seen key (step service w)
  unfolding step
  step-Sound key (s, a) h = elim (List-cases a.write_chain) [
    | inl e ↦ rw e h
    | inr (task, rest, e) ↦ rw e (step_task-Sound key task rest s a e h)
  ]

  pub steps-Sound :
      (key : String) (n : ℕ) (w : S × Adapter)
      → Sound seen key w
      → Sound seen key (steps service n w)
  unfolding steps
  steps-Sound key zero w h = h
  steps-Sound key (suc n) w h = steps-Sound key n (step service w) (step-Sound key w h)

  pub drain-Sound :
      (key : String) (w : S × Adapter) → Sound seen key w → Sound seen key (drain service w)
  unfolding drain
  drain-Sound key w h = steps-Sound key (length w.1.write_chain) w h

  mutated-Sound :
      (key : String) (s : S) (a b : Adapter)
      → Unwritten a b
      → Settled key b
      → Sound seen key (s, a)
      → Sound seen key (s, b)
  mutated-Sound key s a b same settled h = record {
    writable = same.1.1 ∙ h.writable;
    settled = settled;
    persisted = ap (λ m. lookup key m) same.0 ∙ h.persisted;
  }

  flush-Sound :
      (key : String) (w : S × Adapter)
      → Sound seen key w
      → Sound seen key ((flush service w).1, (flush service w).2)
  unfolding flush take_failure
  flush-Sound key w h =
      let drained = drain-Sound key w h in
      record {
        writable = drained.writable;
        settled = record { tail = drained.settled.tail; agreed = drained.settled.agreed };
        persisted = drained.persisted;
      }

  -- Every event keeps a key sound.
  pub perform-Sound :
      (store_backed : String → Bool) (key : String) (event : Event) (w : S × Adapter)
      → Sound seen key w
      → Sound seen key (perform service store_backed event w)
  unfolding perform
  perform-Sound store_backed key (set_call name value) (s, a) h =
      mutated-Sound key s a (set_secure_item store_backed name value a)
        (set-Unwritten store_backed name value a)
        (set-Settled store_backed key name value a h.settled) h
  perform-Sound store_backed key (remove_call name) (s, a) h =
      mutated-Sound key s a (remove_secure_item store_backed name a)
        (remove-Unwritten store_backed name a) (remove-Settled store_backed key name a h.settled) h
  perform-Sound store_backed key clear_call (s, a) h =
      mutated-Sound key s a (clear_storage a) (clear-Unwritten a)
        (clear-Settled key a h.writable h.settled) h
  perform-Sound store_backed key task_step w h = step-Sound key w h
  perform-Sound store_backed key flush_call w h = flush-Sound key w h

  pub run-Sound :
      (store_backed : String → Bool) (key : String) (events : List Event) (w : S × Adapter)
      → Sound seen key w
      → Sound seen key (run service store_backed events w)
  unfolding run
  run-Sound store_backed key [] w h = h
  run-Sound store_backed key (event ∷ events) w h =
      run-Sound store_backed key events _ (perform-Sound store_backed key event w h)

  -- When the chain has run to its end after any calls and steps, the adapter answers for a sensitive key
  -- what the backend keeps, whichever of the writes failed.
  pub drain-agrees :
      (store_backed : String → Bool) (key : String) (events : List Event) (w : S × Adapter)
      → Sound seen key w
      → is_sensitive_storage_key key ≡ true
      → get_item key (drain service (run service store_backed events w)).1
        ≡ seen.kept key (drain service (run service store_backed events w)).0
  drain-agrees store_backed key events w h sensitive =
      let before = run service store_backed events w in
      let ended = drain-Sound key before (run-Sound store_backed key events w h) in
      get_item-sensitive key (drain service before).1 sensitive
      ∙ (ended.settled.agreed (ap (pending key) (drain-empty service before)) ∙ ended.persisted)
