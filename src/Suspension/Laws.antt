-- ===== src/Suspension/Laws.antt =====
-- Suspending and resuming act on the paused accounts as on a set (src/utils/account/capture/account-poll-suspension.ts).
use quota_shift.Prelude.{
  String, ◌≡◌, ap, ap₂, sym, ◌∙◌, true, false, not, ◌&&◌, ◌||◌, Option, some, List, [], ◌∷◌, ◌++◌,
  filter, if◌then◌else◌, ◌==◌, contains, contains-append, contains-filter, eq_iff, arith,
  if_true_holds, if_false_holds, Bool-cases, inl, inr,
}
use quota_shift.Js.{Value, Fields, is_empty}
use quota_shift.Browser.{Storage}
use quota_shift.Suspension.{
  PollingProvider, suspended_ids, with_ids, distinct_from, read_state, is_account_polling_suspended,
  write_state, suspend_account_polling, resume_account_polling,
}
use quota_shift.Suspension.Written.{
  same_provider, suspended_ids-with_ids, contains-distinct_from, same-suspended_ids, distribute,
  associate, guarded, Rereads, read_state-write_state,
}

module _ (parse : String → Option Value) (stringify : Value → String) where
  module _ (s : Storage) (readable : s.readable ≡ true) (writable : s.writable ≡ true)
      (p : PollingProvider) (a : String) where
    abbrev state : Fields
    state = read_state parse (some s)

    -- Whether an account is paused, for a provider's list that holds it or not.
    suspended-written :
        (ids : List String) (q : PollingProvider) (b : String)
        → Rereads parse stringify (with_ids p ids state)
        → is_account_polling_suspended parse q b
            (write_state parse stringify (with_ids p ids state) (some s))
          ≡ (not (is_empty b)
              && contains (if same_provider p q then ids else suspended_ids state q) b)
    unfolding is_account_polling_suspended
    suspended-written ids q b rereads =
        rw
          (
            read_state-write_state parse stringify (with_ids p ids state) s rereads readable
                writable,
            suspended_ids-with_ids p q ids state,
          )
          (guarded (is_empty b)
            (contains (if same_provider p q then ids else suspended_ids state q) b))

    abbrev added : List String
    added = distinct_from [] (suspended_ids state p ++ a ∷ [])

    abbrev left : List String
    left = filter (λ id. not (id == a)) (suspended_ids state p)

    contains-added :
        (b : String) → contains added b ≡ (contains (suspended_ids state p) b || a == b)
    unfolding contains
    contains-added b =
        contains-distinct_from [] (suspended_ids state p ++ a ∷ []) b
        ∙ ground (arith, contains-append (suspended_ids state p) (a ∷ []) b)

    contains-left :
        (b : String) → contains left b ≡ (contains (suspended_ids state p) b && not (a == b))
    contains-left b =
        contains-filter (λ id. not (id == a)) (suspended_ids state p) b
        ∙ ground (arith, eq_iff a b, eq_iff b a)

    suspended_before :
        (q : PollingProvider) (b : String)
        → is_account_polling_suspended parse q b (some s)
          ≡ (not (is_empty b) && contains (suspended_ids state q) b)
    unfolding is_account_polling_suspended
    suspended_before q b = guarded (is_empty b) (contains (suspended_ids state q) b)

    contains-if_added :
        (q : PollingProvider) (b : String)
        → contains (if same_provider p q then added else suspended_ids state q) b
          ≡ (contains (suspended_ids state q) b || (same_provider p q && a == b))
    contains-if_added q b = elim (Bool-cases (same_provider p q)) [
      | inl e ↦
          rw e (
            contains-added b
            ∙ ap (λ ids. contains ids b || a == b) (same-suspended_ids p q state e))
      | inr e ↦ rw e (ground arith)
    ]

    contains-if_left :
        (q : PollingProvider) (b : String)
        → contains (if same_provider p q then left else suspended_ids state q) b
          ≡ (contains (suspended_ids state q) b && not (same_provider p q && a == b))
    contains-if_left q b = elim (Bool-cases (same_provider p q)) [
      | inl e ↦ rw e (
          contains-left b
          ∙ ap (λ ids. contains ids b && not (a == b)) (same-suspended_ids p q state e))
      | inr e ↦ rw e (ground arith)
    ]

    -- Paused after the account is added.
    abbrev WithAdded : PollingProvider → String → Option Storage → Type 0
    WithAdded q b after = is_account_polling_suspended parse q b after ≡ (
        is_account_polling_suspended parse q b (some s)
        || (not (is_empty b) && (same_provider p q && a == b)))

    -- Paused after the account is left out.
    abbrev WithoutLeft : PollingProvider → String → Option Storage → Type 0
    WithoutLeft q b after =
        is_account_polling_suspended parse q b after
        ≡ (is_account_polling_suspended parse q b (some s) && not (same_provider p q && a == b))

    absent_left :
        (q : PollingProvider) (b : String)
        → contains (suspended_ids state p) a ≡ false
        → WithoutLeft q b (some s)
    absent_left q b absent = elim (Bool-cases (same_provider p q && a == b)) [
      | inl e ↦
          let alike =
            sym (
              ap₂ contains (same-suspended_ids p q state (ground arith))
                ((eq_iff a b).0 (ground arith)))
            ∙ absent in
          ground (arith, suspended_before q b, alike)
      | inr e ↦ rw e (ground arith)
    ]

    suspended_after :
        (q : PollingProvider) (b : String)
        → Rereads parse stringify (with_ids p added state)
        → WithAdded q b (suspend_account_polling parse stringify p a (some s))
    unfolding suspend_account_polling
    suspended_after q b rereads = elim (Bool-cases (is_empty a)) [
      | inl e ↦ if_true_holds (WithAdded q b) (is_empty a) _ _ e (ground (arith, eq_iff a b))
      | inr e ↦ if_false_holds (WithAdded q b) (is_empty a) _ _ e (
          suspended-written added q b rereads
          ∙ ap (λ c. not (is_empty b) && c) (contains-if_added q b)
          ∙ distribute (not (is_empty b)) (contains (suspended_ids state q) b)
              (same_provider p q && a == b)
          ∙ ap (λ x. x || (not (is_empty b) && (same_provider p q && a == b)))
              (sym (suspended_before q b)))
    ]

    resumed_after :
        (q : PollingProvider) (b : String)
        → Rereads parse stringify (with_ids p left state)
        → WithoutLeft q b (resume_account_polling parse stringify p a (some s))
    unfolding resume_account_polling
    resumed_after q b rereads = elim (Bool-cases (is_empty a)) [
      | inl e ↦
          if_true_holds (WithoutLeft q b) (is_empty a) _ _ e
            (ground (arith, eq_iff a b, suspended_before q b))
      | inr e ↦
          if_false_holds (WithoutLeft q b) (is_empty a) _ _ e
            (elim (Bool-cases (contains (suspended_ids state p) a)) [
              | inl held ↦
                  if_false_holds (WithoutLeft q b) (not (contains (suspended_ids state p) a)) _ _
                    (ap not held)
                    (suspended-written left q b rereads
                      ∙ ap (λ c. not (is_empty b) && c) (contains-if_left q b)
                      ∙ associate (not (is_empty b)) (contains (suspended_ids state q) b)
                          (not (same_provider p q && a == b))
                      ∙ ap (λ x. x && not (same_provider p q && a == b))
                          (sym (suspended_before q b)))
              | inr absent ↦
                  if_true_holds (WithoutLeft q b) (not (contains (suspended_ids state p) a)) _ _
                    (ap not absent) (absent_left q b absent)
            ])
    ]

    -- On a storage that can be read and written, where JSON reads the written state back, suspending an account
    -- adds it to the paused accounts of its provider, and resuming leaves it out; no other account of either
    -- provider changes. The empty id is never paused.
    pub suspend_resume-refine_set :
        Rereads parse stringify (with_ids p added state)
        → Rereads parse stringify (with_ids p left state)
        → (q : PollingProvider) (b : String)
        → (is_account_polling_suspended parse q b
              (suspend_account_polling parse stringify p a (some s))
            ≡ (is_account_polling_suspended parse q b (some s)
                || (not (is_empty b) && (same_provider p q && a == b))))
          × (is_account_polling_suspended parse q b
                (resume_account_polling parse stringify p a (some s))
              ≡ (is_account_polling_suspended parse q b (some s)
                  && not (same_provider p q && a == b)))
    suspend_resume-refine_set added_again left_again q b =
        (suspended_after q b added_again, resumed_after q b left_again)
