-- ===== src/Tracked/Storage/Laws.antt =====
-- What a saved list of tracked accounts reads back as, and what every load returns.
use quota_shift.Prelude.{
  String, ◌≡◌, refl, ap, true, false, some, List, [], ◌∷◌, All, map, arith, Option-cases,
  Bool-cases, inl, inr,
}
use quota_shift.Js.{Value, str, is_object, get, is_empty, trim}
use quota_shift.Tracked.{
  TrackedProvider, antigravity, codex, claude, TrackedEntry, provider_text, provider_named,
  provider_of, id_of, entry_of, is_tracked, clean_from,
}
use quota_shift.Tracked.Lists.{same_entry_iff, DistinctEntries}
use quota_shift.Tracked.Storage.{entry_value}

abbrev pub HasId : TrackedEntry → Type 0
HasId e = is_empty (trim e.id) ≡ false

abbrev pub Absent : List TrackedEntry → List TrackedEntry → Type 0
Absent list = All (λ e. is_tracked list e ≡ false)

pub provider_named-provider_text : (p : TrackedProvider) → provider_named (provider_text p) ≡ some p
unfolding provider_named provider_text
provider_named-provider_text antigravity = refl
provider_named-provider_text codex = refl
provider_named-provider_text claude = refl

entry_of-entry_value : (e : TrackedEntry) → HasId e → entry_of (entry_value e) ≡ some e
unfolding entry_of entry_value provider_of id_of is_object get
entry_of-entry_value e h = rw (provider_named-provider_text e.provider) (rw h refl)

Absent-cons :
    (seen rest : List TrackedEntry) (e : TrackedEntry)
    → is_tracked rest e ≡ false
    → Absent seen rest
    → Absent (e ∷ seen) rest
unfolding is_tracked
Absent-cons seen [] e h absent = tt
Absent-cons seen (x ∷ rest) e h absent =
    ground (arith, Absent-cons seen rest e, same_entry_iff x e, same_entry_iff e x)

clean-values :
    (seen list : List TrackedEntry)
    → DistinctEntries list
    → All HasId list
    → Absent seen list
    → clean_from seen (map entry_value list) ≡ list
unfolding clean_from
clean-values seen [] d h absent = refl
clean-values seen (e ∷ list) d h absent =
    rw (entry_of-entry_value e h.0, clean_from)
      (rw absent.0 (
        ap (λ r. e ∷ r)
          (clean-values (e ∷ seen) list d.1 h.1 (Absent-cons seen list e d.0 absent.1))))

Absent-nil : (list : List TrackedEntry) → Absent [] list
unfolding is_tracked
Absent-nil [] = tt
Absent-nil (e ∷ list) = (refl, Absent-nil list)

pub clean-entry_values :
    (list : List TrackedEntry)
    → DistinctEntries list
    → All HasId list
    → clean_from [] (map entry_value list) ≡ list
clean-entry_values list d h = clean-values [] list d h (Absent-nil list)

id_of-HasId : (v : Value) (id : String) → id_of v ≡ some id → is_empty (trim id) ≡ false
unfolding id_of
id_of-HasId (str s) id h = ground arith
id_of-HasId _ id h = cc

entry_of-HasId : (v : Value) (e : TrackedEntry) → entry_of v ≡ some e → HasId e
unfolding entry_of
entry_of-HasId v e h = ground (arith, id_of-HasId (get v "id"))

clean-All_HasId : (seen : List TrackedEntry) (vs : List Value) → All HasId (clean_from seen vs)
unfolding clean_from
clean-All_HasId seen [] = tt
clean-All_HasId seen (v ∷ vs) = elim (Option-cases (entry_of v)) [
  | inl e ↦ rw (e, clean_from) (clean-All_HasId seen vs)
  | inr e ↦
      rw (e.1, clean_from)
        (elim (Bool-cases (is_tracked seen e.0)) [
          | inl b ↦ rw b (clean-All_HasId seen vs)
          | inr b ↦ rw b (entry_of-HasId v e.0 e.1, clean-All_HasId (e.0 ∷ seen) vs)
        ])
]

clean-avoids :
    (seen : List TrackedEntry) (vs : List Value) (e : TrackedEntry)
    → is_tracked seen e ≡ true
    → is_tracked (clean_from seen vs) e ≡ false
unfolding clean_from is_tracked
clean-avoids seen [] e h = refl
clean-avoids seen (v ∷ vs) e h = elim (Option-cases (entry_of v)) [
  | inl o ↦ rw (o, clean_from) (clean-avoids seen vs e h)
  | inr o ↦
      rw (o.1, clean_from)
        (ground
          (arith, clean-avoids seen vs e, clean-avoids (o.0 ∷ seen) vs e, same_entry_iff o.0 e))
]

pub clean-DistinctEntries :
    (seen : List TrackedEntry) (vs : List Value) → DistinctEntries (clean_from seen vs)
unfolding clean_from is_tracked
clean-DistinctEntries seen [] = tt
clean-DistinctEntries seen (v ∷ vs) = elim (Option-cases (entry_of v)) [
  | inl o ↦ rw (o, clean_from) (clean-DistinctEntries seen vs)
  | inr o ↦
      rw (o.1, clean_from)
        (elim (Bool-cases (is_tracked seen o.0)) [
          | inl b ↦ rw b (clean-DistinctEntries seen vs)
          | inr b ↦ rw b (
            clean-avoids (o.0 ∷ seen) vs o.0 (ground (arith, same_entry_iff o.0 o.0)),
            clean-DistinctEntries (o.0 ∷ seen) vs,
          )
        ])
]

entry_of-some : (e x : TrackedEntry) → entry_of (entry_value e) ≡ some x → e ≡ x
unfolding entry_of entry_value provider_of id_of is_object get
entry_of-some e x h = ground (arith, provider_named-provider_text e.provider)

pub clean-values_absent :
    (seen list : List TrackedEntry) (e : TrackedEntry)
    → is_tracked list e ≡ false
    → is_tracked (clean_from seen (map entry_value list)) e ≡ false
unfolding clean_from is_tracked
clean-values_absent seen [] e h = refl
clean-values_absent seen (x ∷ list) e h = elim (Option-cases (entry_of (entry_value x))) [
  | inl o ↦ rw (o, clean_from) (clean-values_absent seen list e (ground arith))
  | inr o ↦
      rw (o.1, clean_from)
        (ground (
          arith,
          clean-values_absent seen list e,
          clean-values_absent (o.0 ∷ seen) list e,
          entry_of-some x o.0 o.1,
        ))
]
