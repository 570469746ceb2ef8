-- ===== src/PoolsV2/Mutation/Registry.antt =====
-- The registry under any sequence of mutations.
use quota_shift.Prelude.{
  length, ◌+◌, ◌≤◌, String, ◌≡◌, ◌≢◌, refl, true, false, Option, none, some, List, [], ◌∷◌, arith,
  if◌then◌else◌, Bool-cases, Option-cases, inl, inr, eqb,
}
use quota_shift.PoolsV2.{KnownAccount}
use quota_shift.PoolsV2.Validate.{validate_enabled_pool_names}
use quota_shift.PoolsV2.Validate.Spec.{IsAccepted, validate_iff}
use quota_shift.PoolsV2.Mutation.{
  PoolRegistryState, PoolRegistryMutation, expected_revision, PoolMutationResult,
  apply_pool_mutation, state_after, commit, candidate_pools, failure, Candidate, candidate, refuse,
  revision_mismatch,
}

-- A result is either a success, whose pools are accepted and whose revision is the next one, or a
-- failure, which names an error and leaves the registry as it was.
abbrev pub IsAtomic :
    (String → String) → Option (List KnownAccount) → PoolRegistryState → PoolMutationResult → Type 0
IsAtomic lower known s r =
    if r.success
    then (r.revision ≡ s.revision + 1) × IsAccepted lower known r.pools × (r.error ≡ none)
    else (r.revision ≡ s.revision) × (r.pools ≡ s.pools) × (r.error ≢ none)

module _ (lower : String → String) (known : Option (List KnownAccount)) where
  commit-IsAtomic :
      (s : PoolRegistryState) (c : Candidate) → IsAtomic lower known s (commit lower known s c)
  unfolding commit failure
  commit-IsAtomic s (refuse e) = (refl, refl, λ h. cc)
  commit-IsAtomic s (candidate pools) =
      elim (Option-cases (validate_enabled_pool_names lower known pools)) [
        | inl e ↦ rw (e, commit) (refl, (validate_iff lower known pools).0 e, refl)
        | inr (err, e) ↦ rw (e, commit) (refl, refl, λ h. cc)
      ]

  -- Every mutation either succeeds, with accepted pools and the next revision, or fails, with an
  -- error and the registry as it was.
  pub apply-IsAtomic :
      (s : PoolRegistryState) (m : PoolRegistryMutation)
      → IsAtomic lower known s (apply_pool_mutation lower s m known)
  unfolding apply_pool_mutation failure
  apply-IsAtomic s m = elim (Bool-cases (eqb (expected_revision m) s.revision)) [
    | inl e ↦ rw e (commit-IsAtomic s (candidate_pools lower s m))
    | inr e ↦ rw e (refl, refl, λ h. cc)
  ]

  -- A success had the revision that was expected.
  success-expected :
      (s : PoolRegistryState) (m : PoolRegistryMutation)
      → (apply_pool_mutation lower s m known).success ≡ true
      → expected_revision m ≡ s.revision
  unfolding apply_pool_mutation failure
  success-expected s m h = ground arith

  mismatch_fails :
      (s : PoolRegistryState) (m : PoolRegistryMutation)
      → expected_revision m ≢ s.revision
      → ((apply_pool_mutation lower s m known).success ≡ false)
        × (state_after (apply_pool_mutation lower s m known) ≡ s)
        × ((apply_pool_mutation lower s m known).error
            ≡ some (revision_mismatch (expected_revision m) s.revision))
  unfolding apply_pool_mutation failure
  mismatch_fails s m h = ground arith

  -- Of two mutations made against one revision the second fails once the first has succeeded: it
  -- reports the mismatch, and what the first wrote stays.
  pub second_writer_fails :
      (s : PoolRegistryState) (first second : PoolRegistryMutation)
      → expected_revision second ≡ expected_revision first
      → (apply_pool_mutation lower s first known).success ≡ true
      → (let t = state_after (apply_pool_mutation lower s first known) in
          let r = apply_pool_mutation lower t second known in
          (r.success ≡ false)
          × (state_after r ≡ t)
          × (r.error ≡ some (revision_mismatch (expected_revision second) t.revision)))
  second_writer_fails s first second e h =
      let (next, _, _) = rw h at (apply-IsAtomic s first) in
      mismatch_fails (state_after (apply_pool_mutation lower s first known)) second
        (λ q. absurd (omega (arith, success-expected s first h, q, e, next)))

-- The registry's owner applies mutations one after the other.
pub run_mutations :
    (String → String)
    → Option (List KnownAccount)
    → PoolRegistryState
    → List PoolRegistryMutation
    → PoolRegistryState
run_mutations lower known s [] = s
run_mutations lower known s (m ∷ ms) =
    run_mutations lower known (state_after (apply_pool_mutation lower s m known)) ms

step-IsAccepted :
    (lower : String → String) (known : Option (List KnownAccount)) (s : PoolRegistryState)
    (m : PoolRegistryMutation)
    → IsAccepted lower known s.pools
    → (let r = apply_pool_mutation lower s m known in
        IsAccepted lower known r.pools × (s.revision ≤ r.revision) × (r.revision ≤ s.revision + 1))
step-IsAccepted lower known s m h =
    let atomic = apply-IsAtomic lower known s m in
    elim (Bool-cases (apply_pool_mutation lower s m known).success) [
      | inl e ↦
          let (next, accepted, _) = rw e at atomic in
          (accepted, omega (arith, next), omega (arith, next))
      | inr e ↦
          let (same, kept, _) = rw e at atomic in
          (rw kept h, omega (arith, same), omega (arith, same))
    ]

-- From accepted pools, any sequence of mutations leaves accepted pools, and a revision that has not
-- fallen and has grown by at most one for each mutation.
pub run_mutations-IsAccepted :
    (lower : String → String) (known : Option (List KnownAccount)) (s : PoolRegistryState)
    (ms : List PoolRegistryMutation)
    → IsAccepted lower known s.pools
    → (let t = run_mutations lower known s ms in
        IsAccepted lower known t.pools
        × (s.revision ≤ t.revision)
        × (t.revision ≤ s.revision + length ms))
unfolding run_mutations
run_mutations-IsAccepted lower known s [] h = (h, omega arith, omega arith)
run_mutations-IsAccepted lower known s (m ∷ ms) h =
    let (accepted, grown, bounded) = step-IsAccepted lower known s m h in
    let (accepted', grown', bounded') =
      run_mutations-IsAccepted lower known (state_after (apply_pool_mutation lower s m known)) ms
        accepted in
    (accepted', omega (arith, grown, grown'), omega (arith, bounded, bounded'))
