-- ===== src/Secure/Finishing.antt =====
-- A task that ends, well or not, keeps every key settled (src/utils/auth/secure-storage.ts).
use quota_shift.Prelude.{
  ℕ, ◌≤◌, String, ◌≡◌, true, false, ◌&&◌, ◌↔◌, Option, none, some, subst, Bool-cases, inl, inr,
  List, [], ◌∷◌, lookup, if◌then◌else◌, ◌==◌, eq_iff, arith,
}
use quota_shift.Secure.{
  Task, store_task, secure_task, Adapter, revision_of, is_current, restore_to_persisted_value,
}
use quota_shift.Secure.Chain.{finish_task, settle, catch_error, roll_back}
use quota_shift.Secure.Settled.{Settled, Tail, lookup-put, pending}

-- What the tail says of the oldest task and of the others.
Tail-of_chain :
    (key : String) (task : Task) (rest : List Task) (a : Adapter)
    → a.write_chain ≡ task ∷ rest
    → Settled key a
    → Tail key (lookup key a.secure_values) (revision_of key a.mutation_revisions) (task ∷ rest)
Tail-of_chain key task rest a e h =
    subst (λ q. Tail key (lookup key a.secure_values) (revision_of key a.mutation_revisions) q) e
      h.tail

agreed_of :
    (key : String) (task : Task) (rest : List Task) (a : Adapter)
    → a.write_chain ≡ task ∷ rest
    → Settled key a
    → pending key (task ∷ rest) ≡ false
    → lookup key a.secure_values ≡ lookup key a.persisted_values
agreed_of key task rest a e h p = h.agreed (rw e p)

is_current_iff :
    (key : String) (revision : ℕ) (m : List (String × ℕ))
    → 1 ≤ revision
    → (is_current key revision m ≡ true) ↔ (revision ≡ revision_of key m)
unfolding is_current revision_of
is_current_iff key revision m h = ground arith

lookup-restore :
    (name key : String) (n : ℕ) (a : Adapter)
    → lookup key (restore_to_persisted_value name n a).secure_values ≡ (
        if name == key && is_current name n a.mutation_revisions
        then lookup key a.persisted_values
        else lookup key a.secure_values)
unfolding restore_to_persisted_value
lookup-restore name key n a =
    ground
      (arith, lookup-put name key (lookup name a.persisted_values) a.secure_values, eq_iff name key)

pub restore-untouched :
    (name : String) (n : ℕ) (a : Adapter)
    → ((restore_to_persisted_value name n a).write_chain ≡ a.write_chain)
      × ((restore_to_persisted_value name n a).mutation_revisions ≡ a.mutation_revisions)
      × ((restore_to_persisted_value name n a).persisted_values ≡ a.persisted_values)
      × ((restore_to_persisted_value name n a).native ≡ a.native)
unfolding restore_to_persisted_value
restore-untouched name n a = ground arith

-- Without a task of the key, the tail holds of any value.
Tail-of_idle :
    (key : String) (old value : Option String) (revision : ℕ) (queue : List Task)
    → pending key queue ≡ false
    → Tail key old revision queue
    → Tail key value revision queue
Tail-of_idle key old value revision [] p h = tt
Tail-of_idle key old value revision (store_task _ _ ∷ queue) p h =
    Tail-of_idle key old value revision queue p h
Tail-of_idle key old value revision (secure_task name w n ∷ queue) p h =
    ground (arith, Tail-of_idle key old value revision queue)

-- A task before the last of its key is not current: its failure restores nothing.
older_task :
    (key name : String) (saved value : Option String) (n : ℕ) (rest : List Task)
    (m : List (String × ℕ))
    → pending key rest ≡ true
    → Tail key saved (revision_of key m) (secure_task name value n ∷ rest)
    → (name == key && is_current name n m) ≡ false
older_task key name saved value n rest m p h =
    ground (arith, eq_iff name key, is_current_iff key n m)

-- The last task of a key is current: its failure restores the persisted value.
last_task :
    (key name : String) (saved value : Option String) (n : ℕ) (rest : List Task)
    (m : List (String × ℕ))
    → pending key rest ≡ false
    → Tail key saved (revision_of key m) (secure_task name value n ∷ rest)
    → (name == key && is_current name n m) ≡ name == key
last_task key name saved value n rest m p h =
    ground (arith, eq_iff name key, is_current_iff key n m)

-- The map's value after a failed task, from what it was.
restored_Tail :
    (key name : String) (value : Option String) (n : ℕ) (rest : List Task) (a : Adapter)
    → Tail key
        (lookup key a.secure_values)
        (revision_of key a.mutation_revisions)
        (secure_task name value n ∷ rest)
    → Tail key
        (lookup key (restore_to_persisted_value name n a).secure_values)
        (revision_of key a.mutation_revisions)
        rest
restored_Tail key name value n rest a h = elim (Bool-cases (pending key rest)) [
  | inl e ↦ rw (lookup-restore name key n a, older_task key name _ value n rest _ e h) h.3
  | inr e ↦ Tail-of_idle key _ _ _ rest e h.3
]

restore-Settled :
    (key name : String) (value : Option String) (n : ℕ) (a : Adapter)
    → Tail key
        (lookup key a.secure_values)
        (revision_of key a.mutation_revisions)
        (secure_task name value n ∷ a.write_chain)
    → (pending key (secure_task name value n ∷ a.write_chain) ≡ false
        → lookup key a.secure_values ≡ lookup key a.persisted_values)
    → Settled key (restore_to_persisted_value name n a)
restore-Settled key name value n a h agree =
    let same = restore-untouched name n a in
    record {
      tail = rw (same.0, same.1) (restored_Tail key name value n a.write_chain a h);
      agreed =
          rw (same.0, same.2)
            (λ p. ground (
              arith,
              last_task key name _ value n a.write_chain a.mutation_revisions p h,
              lookup-restore name key n a,
              agree,
            ));
    }

pub finish_task-Settled :
    (key : String) (task : Task) (outcome : Option String) (rest : List Task) (a : Adapter)
    → a.write_chain ≡ task ∷ rest
    → Settled key a
    → Settled key (finish_task task outcome (record a { write_chain = rest }))
unfolding finish_task settle catch_error roll_back restore_to_persisted_value
finish_task-Settled key (store_task name value) none rest a e h = record {
  tail = Tail-of_chain key _ rest a e h;
  agreed = ground (arith, agreed_of key _ rest a e h);
}
finish_task-Settled key (store_task name value) (some error) rest a e h = record {
  tail = Tail-of_chain key _ rest a e h;
  agreed = ground (arith, agreed_of key _ rest a e h);
}
finish_task-Settled key (secure_task name value n) none rest a e h = record {
  tail = (Tail-of_chain key _ rest a e h).3;
  agreed = ground (
    arith,
    Tail-of_chain key _ rest a e h,
    agreed_of key _ rest a e h,
    lookup-put name key value a.persisted_values,
  );
}
finish_task-Settled key (secure_task name value n) (some error) rest a e h =
    let restored =
      restore-Settled key name value n (record a { write_chain = rest })
        (Tail-of_chain key _ rest a e h) (agreed_of key _ rest a e h) in
    record { tail = restored.tail; agreed = restored.agreed }
