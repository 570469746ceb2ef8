-- ===== src/Secure/Settled.antt =====
-- The renderer's map and the tasks still queued, key by key (src/utils/auth/secure-storage.ts): the last
-- task of a key holds the map's value and the current revision, and the earlier ones are older.
use quota_shift.Prelude.{
  ℕ, ◌+◌, ◌≤◌, ◌<◌, String, ◌≡◌, Bool, true, false, ◌||◌, Option, none, some, sym, subst,
  Bool-cases, inl, inr, List, [], ◌∷◌, ◌++◌, any, lookup, insert, lookup-insert, if◌then◌else◌,
  ◌==◌, eq_iff, eq_refl, arith,
}
use quota_shift.Browser.Keys.{lookup-remove_key}
use quota_shift.Secure.{
  Task, store_task, secure_task, Adapter, put, revision_of, next_revision, enqueue, mutate_secure,
}

abbrev pub targets : String → Task → Bool
targets key (store_task _ _) = false
targets key (secure_task name _ _) = name == key

-- Some queued task writes the key.
abbrev pub pending : String → List Task → Bool
pending key queue = any (targets key) queue

-- The tasks of the key hold revisions from 1 on, below the current one but for the last, which
-- holds the current revision and the current value.
abbrev pub Tail : String → Option String → ℕ → List Task → Type 0
Tail key value revision [] = Unit
Tail key value revision (store_task _ _ ∷ rest) = Tail key value revision rest
Tail key value revision (secure_task name written numbered ∷ rest) =
    (name == key ≡ true → 1 ≤ numbered)
    × (name == key ≡ true → pending key rest ≡ true → numbered < revision)
    × (name == key ≡ true → pending key rest ≡ false → (numbered ≡ revision) × (written ≡ value))
    × Tail key value revision rest

pub record Settled (key : String) (a : Adapter) : Type 0 where
  pub tail :
      Tail key (lookup key a.secure_values) (revision_of key a.mutation_revisions) a.write_chain
  pub agreed :
      pending key a.write_chain ≡ false → lookup key a.secure_values ≡ lookup key a.persisted_values

pub lookup-put :
    (key other : String) (value : Option String) (m : List (String × String))
    → lookup other (put key value m) ≡ (if key == other then value else lookup other m)
unfolding put
lookup-put key other none m = lookup-remove_key key other m
lookup-put key other (some value) m = lookup-insert key other value m

pub revision_of-insert :
    (key other : String) (revision : ℕ) (m : List (String × ℕ))
    → revision_of other (insert key revision m)
      ≡ (if key == other then revision else revision_of other m)
unfolding revision_of
revision_of-insert key other revision m = ground (arith, lookup-insert key other revision m)

pub pending-append :
    (key : String) (queue : List Task) (task : Task)
    → pending key (queue ++ task ∷ []) ≡ (pending key queue || targets key task)
pending-append key [] task = ground arith
pending-append key (t ∷ queue) task = ground (arith, pending-append key queue task)

pub Tail-append-other :
    (key : String) (value : Option String) (revision : ℕ) (queue : List Task) (task : Task)
    → targets key task ≡ false
    → Tail key value revision queue
    → Tail key value revision (queue ++ task ∷ [])
Tail-append-other key value revision [] (store_task _ _) e h = tt
Tail-append-other key value revision [] (secure_task name w n) e h = ground arith
Tail-append-other key value revision (store_task _ _ ∷ queue) task e h =
    Tail-append-other key value revision queue task e h
Tail-append-other key value revision (secure_task name w n ∷ queue) task e h =
    ground
      (arith, Tail-append-other key value revision queue task e h.3, pending-append key queue task)

pub Tail-append-own :
    (key : String) (old value : Option String) (revision : ℕ) (queue : List Task)
    → Tail key old revision queue
    → Tail key value (revision + 1) (queue ++ secure_task key value (revision + 1) ∷ [])
Tail-append-own key old value revision [] h = ground arith
Tail-append-own key old value revision (store_task _ _ ∷ queue) h =
    Tail-append-own key old value revision queue h
Tail-append-own key old value revision (secure_task name w n ∷ queue) h = ground (
  arith,
  Tail-append-own key old value revision queue h.3,
  pending-append key queue (secure_task key value (revision + 1)),
  eq_refl key,
)

mutate_own :
    (key : String) (value : Option String) (a : Adapter)
    → Settled key a
    → Settled key (mutate_secure key value a)
unfolding mutate_secure next_revision enqueue
mutate_own key value a h = record {
  tail =
      rw
        (
          lookup-put key key value a.secure_values,
          revision_of-insert key key (revision_of key a.mutation_revisions + 1)
              a.mutation_revisions,
          eq_refl key,
        )
        (Tail-append-own key _ value _ a.write_chain h.tail);
  agreed = ground (
    arith,
    pending-append key a.write_chain
        (secure_task key value (revision_of key a.mutation_revisions + 1)),
    eq_refl key,
  );
}

mutate_other :
    (key name : String) (value : Option String) (a : Adapter)
    → name == key ≡ false
    → Settled key a
    → Settled key (mutate_secure name value a)
unfolding mutate_secure next_revision enqueue
mutate_other key name value a e h = record {
  tail =
      rw
        (
          lookup-put name key value a.secure_values,
          revision_of-insert name key (revision_of name a.mutation_revisions + 1)
              a.mutation_revisions,
          e,
        )
        (Tail-append-other key _ _ a.write_chain (secure_task name value _) e h.tail);
  agreed = ground (
    arith,
    h.agreed,
    pending-append key a.write_chain
        (secure_task name value (revision_of name a.mutation_revisions + 1)),
    lookup-put name key value a.secure_values,
  );
}

pub mutate_secure-Settled :
    (key name : String) (value : Option String) (a : Adapter)
    → Settled key a
    → Settled key (mutate_secure name value a)
mutate_secure-Settled key name value a h = elim (Bool-cases (name == key)) [
  | inl e ↦
      subst (λ n. Settled key (mutate_secure n value a)) (sym ((eq_iff name key).0 e))
        (mutate_own key value a h)
  | inr e ↦ mutate_other key name value a e h
]
