-- ===== src/Secure/Operations.antt =====
-- Each mutation of the adapter keeps every key settled: setItem, removeItem and clear of
-- src/utils/auth/secure-storage.ts.
use quota_shift.Prelude.{
  ◌+◌, String, ◌≡◌, refl, ◌∙◌, Bool, true, false, Option, none, some, List, [], ◌∷◌, lookup, keys,
  contains, lookup-eq-none_iff, ◌==◌, eq_iff, eq_refl, arith, Bool-cases, if_holds, if_true_holds,
  inl, inr, sym, subst,
}
use quota_shift.Browser.{Storage, set_item, remove_item}
use quota_shift.Secure.{
  store_task, secure_task, Adapter, revision_of, next_revision, enqueue, is_sensitive_storage_key,
  set_secure_item, remove_secure_item, clear_key, clear_keys, clear_storage,
}
use quota_shift.Secure.Settled.{
  Tail, Settled, mutate_secure-Settled, Tail-append-own, Tail-append-other, pending-append,
  revision_of-insert,
}

enqueue_store-Settled :
    (key name : String) (value : Option String) (a : Adapter)
    → Settled key a
    → Settled key (enqueue (store_task name value) a)
unfolding enqueue
enqueue_store-Settled key name value a h = record {
  tail = Tail-append-other key _ _ a.write_chain (store_task name value) refl h.tail;
  agreed = ground (arith, h.agreed, pending-append key a.write_chain (store_task name value));
}

native-Settled :
    (key : String) (native : Storage) (a : Adapter)
    → Settled key a
    → Settled key (record a { native = native })
native-Settled key native a h = record { tail = h.tail; agreed = h.agreed }

pub set-Settled :
    (store_backed : String → Bool) (key name value : String) (a : Adapter)
    → Settled key a
    → Settled key (set_secure_item store_backed name value a)
unfolding set_secure_item
set-Settled store_backed key name value a h =
    if_holds (Settled key) (is_sensitive_storage_key name)
      (mutate_secure-Settled key name (some value) a h)
      (if_holds (Settled key) a.native.writable
        (if_holds (Settled key) (store_backed name)
          (enqueue_store-Settled key name (some value)
            (record a { native = set_item name value a.native }) (native-Settled key _ a h))
          (native-Settled key _ a h))
        h)

pub remove-Settled :
    (store_backed : String → Bool) (key name : String) (a : Adapter)
    → Settled key a
    → Settled key (remove_secure_item store_backed name a)
unfolding remove_secure_item
remove-Settled store_backed key name a h =
    if_holds (Settled key) (is_sensitive_storage_key name) (mutate_secure-Settled key name none a h)
      (if_holds (Settled key) a.native.writable
        (if_holds (Settled key) (store_backed name)
          (enqueue_store-Settled key name none (record a { native = remove_item name a.native })
            (native-Settled key _ a h))
          (native-Settled key _ a h))
        h)

clear_own :
    (key : String) (saved : Option String) (a : Adapter)
    → a.secure_values ≡ []
    → Tail key saved (revision_of key a.mutation_revisions) a.write_chain
    → Settled key (clear_key key a)
unfolding clear_key enqueue next_revision lookup
clear_own key saved a e h = record {
  tail =
      rw
        (
          e,
          revision_of-insert key key (revision_of key a.mutation_revisions + 1)
              a.mutation_revisions,
          eq_refl key,
        )
        (Tail-append-own key saved none _ a.write_chain h);
  agreed = ground (
    arith,
    pending-append key a.write_chain
        (secure_task key none (revision_of key a.mutation_revisions + 1)),
    eq_refl key,
  );
}

-- The rounds of the other keys leave a key as it was.
clear_other-Tail :
    (key name : String) (saved : Option String) (a : Adapter)
    → name == key ≡ false
    → Tail key saved (revision_of key a.mutation_revisions) a.write_chain
    → Tail key saved
        (revision_of key (clear_key name a).mutation_revisions)
        (clear_key name a).write_chain
unfolding clear_key enqueue next_revision
clear_other-Tail key name saved a e h =
    rw
      (
        revision_of-insert name key (revision_of name a.mutation_revisions + 1)
            a.mutation_revisions,
        e,
      )
      (Tail-append-other key _ _ a.write_chain (secure_task name none _) e h)

clear_other :
    (key name : String) (a : Adapter)
    → name == key ≡ false
    → Settled key a
    → Settled key (clear_key name a)
unfolding clear_key enqueue next_revision
clear_other key name a e h = record {
  tail = clear_other-Tail key name _ a e h.tail;
  agreed = ground (
    arith,
    h.agreed,
    pending-append key a.write_chain
        (secure_task name none (revision_of name a.mutation_revisions + 1)),
  );
}

clear_key-values :
    (name : String) (a : Adapter) → (clear_key name a).secure_values ≡ a.secure_values
unfolding clear_key enqueue next_revision
clear_key-values name a = refl

clear_key-Settled :
    (key name : String) (a : Adapter)
    → a.secure_values ≡ []
    → Settled key a
    → Settled key (clear_key name a)
clear_key-Settled key name a e h = elim (Bool-cases (name == key)) [
  | inl p ↦
      subst (λ n. Settled key (clear_key n a)) (sym ((eq_iff name key).0 p))
        (clear_own key _ a e h.tail)
  | inr p ↦ clear_other key name a p h
]

clear_keys-Settled :
    (key : String) (names : List String) (a : Adapter)
    → a.secure_values ≡ []
    → Settled key a
    → Settled key (clear_keys names a)
unfolding clear_keys
clear_keys-Settled key [] a e h = h
clear_keys-Settled key (name ∷ names) a e h =
    clear_keys-Settled key names (clear_key name a) (clear_key-values name a ∙ e)
      (clear_key-Settled key name a e h)

-- A key that the map had is settled by its round, whatever its value was.
clear_keys_had :
    (key : String) (saved : Option String) (names : List String) (a : Adapter)
    → a.secure_values ≡ []
    → contains names key ≡ true
    → Tail key saved (revision_of key a.mutation_revisions) a.write_chain
    → Settled key (clear_keys names a)
unfolding clear_keys contains clear_key enqueue next_revision
clear_keys_had key saved [] a e c h = cc
clear_keys_had key saved (name ∷ names) a e c h = elim (Bool-cases (name == key)) [
  | inl p ↦ clear_keys-Settled key names (clear_key name a) e (
      subst (λ n. Settled key (clear_key n a)) (sym ((eq_iff name key).0 p))
        (clear_own key saved a e h))
  | inr p ↦
      clear_keys_had key saved names (clear_key name a) e (ground arith)
        (clear_other-Tail key name saved a p h)
]

cleared-Settled :
    (key : String) (native : Storage) (a : Adapter)
    → Settled key a
    → Settled key
        (clear_keys (keys a.secure_values) (record a { secure_values = []; native = native }))
unfolding lookup
cleared-Settled key native a h = elim (Bool-cases (contains (keys a.secure_values) key)) [
  | inl c ↦
      clear_keys_had key _ (keys a.secure_values) (record a { secure_values = []; native = native })
        refl c h.tail
  | inr c ↦
      (let absent = (lookup-eq-none_iff key a.secure_values).1 c in
        clear_keys-Settled key (keys a.secure_values)
          (record a { secure_values = []; native = native }) refl
          (record { tail = rw (← absent) h.tail; agreed = rw (← absent) h.agreed }))
]

pub clear-Settled :
    (key : String) (a : Adapter)
    → a.native.writable ≡ true
    → Settled key a
    → Settled key (clear_storage a)
unfolding clear_storage
clear-Settled key a w h =
    if_true_holds (Settled key) a.native.writable _ _ w (cleared-Settled key _ a h)
