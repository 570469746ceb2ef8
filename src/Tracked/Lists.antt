-- ===== src/Tracked/Lists.antt =====
-- The lists of tracked accounts: no entry twice, and what a change of the list does to the others.
use quota_shift.Prelude.{
  ◌⊎◌, ◌≡◌, ◌↔◌, refl, Bool, true, false, not, ◌&&◌, ◌||◌, List, [], ◌∷◌, ◌++◌, filter, length,
  if◌then◌else◌, eq_iff, arith,
}
use quota_shift.Tracked.{
  TrackedProvider, antigravity, codex, claude, TrackedEntry, same_provider, same_entry, is_tracked,
  toggle_tracked_entry, ensure_primary_entry,
}

same_provider_iff : (p q : TrackedProvider) → (same_provider p q ≡ true) ↔ (p ≡ q)
unfolding same_provider
same_provider_iff antigravity antigravity = (λ _. refl, λ _. refl)
same_provider_iff antigravity codex = (λ h. cc, λ h. cc)
same_provider_iff antigravity claude = (λ h. cc, λ h. cc)
same_provider_iff codex antigravity = (λ h. cc, λ h. cc)
same_provider_iff codex codex = (λ _. refl, λ _. refl)
same_provider_iff codex claude = (λ h. cc, λ h. cc)
same_provider_iff claude antigravity = (λ h. cc, λ h. cc)
same_provider_iff claude codex = (λ h. cc, λ h. cc)
same_provider_iff claude claude = (λ _. refl, λ _. refl)

pub same_entry_iff : (a b : TrackedEntry) → (same_entry a b ≡ true) ↔ (a ≡ b)
unfolding same_entry
same_entry_iff a b = ground (arith, same_provider_iff a.provider b.provider, eq_iff a.id b.id)

-- No entry stands twice.
abbrev pub DistinctEntries : List TrackedEntry → Type 0
DistinctEntries [] = Unit
DistinctEntries (e ∷ rest) = (is_tracked rest e ≡ false) × DistinctEntries rest

pub is_tracked-without :
    (list : List TrackedEntry) (entry other : TrackedEntry)
    → is_tracked (filter (λ existing. not (same_entry existing entry)) list) other
      ≡ (not (same_entry entry other) && is_tracked list other)
unfolding is_tracked
is_tracked-without [] entry other = ground arith
is_tracked-without (e ∷ list) entry other = ground (
  arith,
  is_tracked-without list entry other,
  same_entry_iff e entry,
  same_entry_iff e other,
  same_entry_iff entry other,
)

pub is_tracked-append :
    (list : List TrackedEntry) (entry other : TrackedEntry)
    → is_tracked (list ++ entry ∷ []) other ≡ (is_tracked list other || same_entry entry other)
unfolding is_tracked
is_tracked-append [] entry other = ground arith
is_tracked-append (e ∷ list) entry other = ground (arith, is_tracked-append list entry other)

-- With one tracked account at most, an account that is tracked is dropped and any other one takes the
-- place of all; with several, exactly the toggled account changes between tracked and not tracked.
pub toggle-is_tracked :
    (list : List TrackedEntry) (entry other : TrackedEntry)
    → (is_tracked (toggle_tracked_entry list entry false).list other
        ≡ (not (is_tracked list entry) && same_entry entry other))
      × (is_tracked (toggle_tracked_entry list entry true).list other
          ≡ (if same_entry entry other then not (is_tracked list entry) else is_tracked list other))
unfolding toggle_tracked_entry is_tracked
toggle-is_tracked list entry other = ground (
  arith,
  is_tracked-without list entry other,
  is_tracked-append list entry other,
  same_entry_iff entry other,
)

without_absent :
    (list : List TrackedEntry) (entry : TrackedEntry)
    → is_tracked list entry ≡ false
    → filter (λ existing. not (same_entry existing entry)) list ≡ list
unfolding is_tracked
without_absent [] entry h = refl
without_absent (e ∷ list) entry h = ground (arith, without_absent list entry)

without_last :
    (list : List TrackedEntry) (entry : TrackedEntry)
    → is_tracked list entry ≡ false
    → filter (λ existing. not (same_entry existing entry)) (list ++ entry ∷ []) ≡ list
unfolding is_tracked
without_last [] entry h = ground (arith, same_entry_iff entry entry)
without_last (e ∷ list) entry h = ground (arith, without_last list entry)

-- With several tracked accounts, two toggles of an account that is not tracked restore the list, order
-- included.
pub toggle-toggle :
    (list : List TrackedEntry) (entry : TrackedEntry)
    → is_tracked list entry ≡ false
    → (toggle_tracked_entry (toggle_tracked_entry list entry true).list entry true).list ≡ list
unfolding toggle_tracked_entry
toggle-toggle list entry h = rw h (
    rw (is_tracked-append list entry entry)
      (ground (arith, without_last list entry, same_entry_iff entry entry)))

DistinctEntries-without :
    (list : List TrackedEntry) (entry : TrackedEntry)
    → DistinctEntries list
    → DistinctEntries (filter (λ existing. not (same_entry existing entry)) list)
DistinctEntries-without [] entry h = tt
DistinctEntries-without (e ∷ list) entry h =
    ground (arith, DistinctEntries-without list entry h.1, is_tracked-without list entry e)

DistinctEntries-append :
    (list : List TrackedEntry) (entry : TrackedEntry)
    → DistinctEntries list
    → is_tracked list entry ≡ false
    → DistinctEntries (list ++ entry ∷ [])
unfolding is_tracked
DistinctEntries-append [] entry h fresh = (refl, tt)
DistinctEntries-append (e ∷ list) entry h fresh = ground (
  arith,
  DistinctEntries-append list entry h.1,
  is_tracked-append list entry e,
  same_entry_iff e entry,
  same_entry_iff entry e,
)

-- A toggle, with one tracked account or with several, keeps the entries distinct.
pub toggle-DistinctEntries :
    (list : List TrackedEntry) (entry : TrackedEntry) (multi : Bool)
    → DistinctEntries list
    → DistinctEntries (toggle_tracked_entry list entry multi).list
unfolding toggle_tracked_entry is_tracked
toggle-DistinctEntries list entry multi h =
    ground (arith, DistinctEntries-without list entry h, DistinctEntries-append list entry h)

-- On a list of distinct entries, the account that another flow makes the primary one is tracked
-- afterwards, the entries stay distinct, and the list has one entry or as many as before.
pub ensure_primary-is_tracked :
    (list : List TrackedEntry) (entry : TrackedEntry) (multi : Bool)
    → DistinctEntries list
    → (is_tracked (ensure_primary_entry list entry multi) entry ≡ true)
      × DistinctEntries (ensure_primary_entry list entry multi)
      × ((length (ensure_primary_entry list entry multi) ≡ 1)
          ⊎ (length (ensure_primary_entry list entry multi) ≡ length list))
unfolding ensure_primary_entry is_tracked
ensure_primary-is_tracked [] entry multi h = ground (arith, same_entry_iff entry entry)
ensure_primary-is_tracked (e ∷ list) entry multi h = ground (arith, same_entry_iff entry entry)
