-- ===== src/Secure/Apart.antt =====
-- Every event keeps sensitive and plain keys apart (src/utils/auth/secure-storage.ts).
use quota_shift.Prelude.{
  ℕ, zero, suc, String, subst, Bool, Option, none, some, List, [], ◌∷◌, lookup, All, if_holds,
  List-cases, inl, inr, length,
}
use quota_shift.Secure.{
  Task, store_task, secure_task, Adapter, restore_to_persisted_value, take_failure,
}
use quota_shift.Secure.Services.{Services}
use quota_shift.Secure.Chain.{
  call_services, finish_task, settle, catch_error, roll_back, run_task, step, steps, drain, flush,
}
use quota_shift.Secure.Runs.{
  Event, set_call, remove_call, clear_call, task_step, flush_call, perform, run,
}
use quota_shift.Secure.Separate.{
  All-keys-put, Distinct-keys-put, Guarded, Sensitive, Separate, clear-Separate, remove-Separate,
  set-Separate,
}

restore-Separate :
    (key : String) (n : ℕ) (a : Adapter)
    → Sensitive key
    → Separate a
    → Separate (restore_to_persisted_value key n a)
unfolding restore_to_persisted_value
restore-Separate key n a e h =
    if_holds Separate _
      (record {
        native_plain = h.native_plain;
        secure_sensitive =
            All-keys-put Sensitive key (lookup key a.persisted_values) a.secure_values e
              h.secure_sensitive;
        secure_distinct =
            Distinct-keys-put key (lookup key a.persisted_values) a.secure_values h.secure_distinct;
        chain_sensitive = h.chain_sensitive;
      })
      h

-- The fields that `Separate` reads, of two adapters that share them.
finish_task-Separate :
    (task : Task) (outcome : Option String) (a : Adapter)
    → Guarded task
    → Separate a
    → Separate (finish_task task outcome a)
unfolding finish_task settle catch_error roll_back
finish_task-Separate (store_task key value) none a g h = h
finish_task-Separate (secure_task key value n) none a g h = record {
  native_plain = h.native_plain;
  secure_sensitive = h.secure_sensitive;
  secure_distinct = h.secure_distinct;
  chain_sensitive = h.chain_sensitive;
}
finish_task-Separate (store_task key value) (some error) a g h = record {
  native_plain = h.native_plain;
  secure_sensitive = h.secure_sensitive;
  secure_distinct = h.secure_distinct;
  chain_sensitive = h.chain_sensitive;
}
finish_task-Separate (secure_task key value n) (some error) a g h =
    let restored = restore-Separate key n a g h in
    record {
      native_plain = restored.native_plain;
      secure_sensitive = restored.secure_sensitive;
      secure_distinct = restored.secure_distinct;
      chain_sensitive = restored.chain_sensitive;
    }

module _ {ℓ} {S : Type ℓ} (service : Services S) where
  step-Separate : (s : S) (a : Adapter) → Separate a → Separate (step service (s, a)).1
  unfolding step run_task
  step-Separate s a h = elim (List-cases a.write_chain) [
    | inl e ↦ rw e (record {
      native_plain = h.native_plain;
      secure_sensitive = h.secure_sensitive;
      secure_distinct = h.secure_distinct;
      chain_sensitive = tt;
    })
    | inr (task, rest, e) ↦
        (let guarded = subst (All Guarded) e h.chain_sensitive in
          rw e (
            finish_task-Separate task (call_services service task s).1
              (record a { write_chain = rest }) guarded.0
              (record {
                native_plain = h.native_plain;
                secure_sensitive = h.secure_sensitive;
                secure_distinct = h.secure_distinct;
                chain_sensitive = guarded.1;
              })))
  ]

  steps-Separate : (n : ℕ) (s : S) (a : Adapter) → Separate a → Separate (steps service n (s, a)).1
  unfolding steps
  steps-Separate zero s a h = h
  steps-Separate (suc n) s a h =
      let next = step service (s, a) in steps-Separate n next.0 next.1 (step-Separate s a h)

  pub drain-Separate : (s : S) (a : Adapter) → Separate a → Separate (drain service (s, a)).1
  unfolding drain
  drain-Separate s a h = steps-Separate (length a.write_chain) s a h

  perform-Separate :
      (store_backed : String → Bool) (event : Event) (s : S) (a : Adapter)
      → Separate a
      → Separate (perform service store_backed event (s, a)).1
  unfolding perform flush drain take_failure
  perform-Separate store_backed (set_call key value) s a h = set-Separate store_backed key value a h
  perform-Separate store_backed (remove_call key) s a h = remove-Separate store_backed key a h
  perform-Separate store_backed clear_call s a h = clear-Separate a h
  perform-Separate store_backed task_step s a h = step-Separate s a h
  perform-Separate store_backed flush_call s a h =
      let drained = drain-Separate s a h in
      record {
        native_plain = drained.native_plain;
        secure_sensitive = drained.secure_sensitive;
        secure_distinct = drained.secure_distinct;
        chain_sensitive = drained.chain_sensitive;
      }

  -- For an adapter whose native storage holds no sensitive key, whose secure map holds sensitive keys alone
  -- and none twice, and which has no plain key queued for the backend: whatever is set, removed, cleared,
  -- written or flushed, and whichever writes fail, all of that still holds.
  pub run-Separate :
      (store_backed : String → Bool) (events : List Event) (s : S) (a : Adapter)
      → Separate a
      → Separate (run service store_backed events (s, a)).1
  unfolding run
  run-Separate store_backed [] s a h = h
  run-Separate store_backed (event ∷ events) s a h =
      let next = perform service store_backed event (s, a) in
      run-Separate store_backed events next.0 next.1 (perform-Separate store_backed event s a h)
