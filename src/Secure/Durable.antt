-- ===== src/Secure/Durable.antt =====
-- What a flush says of the writes before it (`setItem` and `flush` of src/utils/auth/secure-storage.ts).
use quota_shift.Prelude.{
  ℕ, zero, suc, String, ◌≡◌, refl, ap, ◌∙◌, Bool, true, Option, none, some, [], ◌∷◌, lookup,
  if◌then◌else◌, eq_refl, arith, length, sym, List-cases, inl, inr,
}
use quota_shift.Secure.{
  Task, store_task, secure_task, Adapter, enqueue, is_sensitive_storage_key, next_revision,
  mutate_secure, set_secure_item, take_failure, restore_to_persisted_value,
}
use quota_shift.Secure.Services.{Services, Observed}
use quota_shift.Secure.Chain.{
  call_services, finish_task, settle, catch_error, roll_back, first_failure, run_task, step, steps,
  drain, flush,
}
use quota_shift.Secure.Settled.{lookup-put}
use quota_shift.Secure.Access.{get_item-sensitive, set_sensitive}
use quota_shift.Secure.Runs.{Sound, set_call, run, drain-agrees}

-- From `a` to `b` no failure was noted, and the renderer's map stayed.
abbrev Quiet : Adapter → Adapter → Type 0
Quiet a b =
    (b.queued_failure ≡ none) → (a.queued_failure ≡ none) × (b.secure_values ≡ a.secure_values)

finish_task-Quiet :
    (task : Task) (outcome : Option String) (a : Adapter) → Quiet a (finish_task task outcome a)
unfolding finish_task settle catch_error roll_back first_failure restore_to_persisted_value
finish_task-Quiet (store_task key value) none a = λ e. (e, refl)
finish_task-Quiet (secure_task key value n) none a = λ e. (e, refl)
finish_task-Quiet (store_task key value) (some error) a = ground arith
finish_task-Quiet (secure_task key value n) (some error) a = ground arith

module _ {ℓ} {S : Type ℓ} (service : Services S) where
  step-Quiet : (s : S) (a : Adapter) → Quiet a (step service (s, a)).1
  unfolding step run_task
  step-Quiet s a = elim (List-cases a.write_chain) [
    | inl e ↦ rw e (λ none_left. (none_left, refl))
    | inr (task, rest, e) ↦
        rw e (
          finish_task-Quiet task (call_services service task s).1 (record a { write_chain = rest }))
  ]

  steps-Quiet : (n : ℕ) (s : S) (a : Adapter) → Quiet a (steps service n (s, a)).1
  unfolding steps
  steps-Quiet zero s a = λ e. (e, refl)
  steps-Quiet (suc n) s a = λ e.
      let next = step service (s, a) in
      let later = steps-Quiet n next.0 next.1 e in
      let now = step-Quiet s a later.0 in (now.0, later.1 ∙ now.1)

  drain-Quiet : (s : S) (a : Adapter) → Quiet a (drain service (s, a)).1
  unfolding drain
  drain-Quiet s a = steps-Quiet (length a.write_chain) s a

lookup-secure-mutate :
    (key : String) (value : Option String) (a : Adapter)
    → lookup key (mutate_secure key value a).secure_values ≡ value
unfolding mutate_secure enqueue next_revision
lookup-secure-mutate key value a =
    lookup-put key key value a.secure_values
    ∙ ap (λ b. if b then value else lookup key a.secure_values) (eq_refl key)

module _ {ℓ} {S : Type ℓ} (service : Services S) (seen : Observed service) where
  -- For a sensitive key and an adapter that is sound at it: the native storage can be written; of the queued
  -- tasks of the key, which have revisions from 1 on, the last one has the current revision and the value in
  -- the secure map, and the others have lower revisions; where none is queued, the secure map has the
  -- persisted value; and the persisted value is the one that the backend keeps. If the flush after the key was
  -- set then throws nothing, the backend keeps the value that was set.
  pub flush-set-kept :
      (store_backed : String → Bool) (key value : String) (s : S) (a : Adapter)
      → Sound seen key (s, a)
      → is_sensitive_storage_key key ≡ true
      → (flush service (s, set_secure_item store_backed key value a)).0 ≡ none
      → seen.kept key (flush service (s, set_secure_item store_backed key value a)).1 ≡ some value
  unfolding flush take_failure run
  flush-set-kept store_backed key value s a h sensitive quiet =
      let b = set_secure_item store_backed key value a in
      let ended = drain service (s, b) in
      sym (drain-agrees service seen store_backed key (set_call key value ∷ []) (s, a) h sensitive)
      ∙ (get_item-sensitive key ended.1 sensitive
          ∙ (ap (lookup key) (drain-Quiet service s b quiet).1
              ∙ (ap (λ c. lookup key c.secure_values)
                    (set_sensitive store_backed key value a sensitive)
                  ∙ lookup-secure-mutate key (some value) a)))
