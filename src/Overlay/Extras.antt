-- ===== src/Overlay/Extras.antt =====
-- The cards of the overlay's data are those of different accounts.
use quota_shift.Prelude.{
  String, ◌≡◌, refl, ap, ap₂, ◌⊎◌, true, Option, none, some, List, [], ◌∷◌, map, contains, Fresh,
  All, All-imp, eq_iff, arith, Option-cases, Bool-cases, inl, inr,
}
use quota_shift.Tracked.{TrackedEntry, provider_text}
use quota_shift.Overlay.{
  OverlayCard, OverlayAccountData, card_key, id_or_empty, has_account_id, primary_keys, built_card,
  extras_from, with_extras, attach_additional_accounts, list_overlay_accounts,
}

has_account_id-some : (a : Option String) (id : String) → has_account_id a id ≡ true → a ≡ some id
unfolding has_account_id
has_account_id-some none id h = cc
has_account_id-some (some a) id h = ground (arith, eq_iff a id)

module _ {C : Type 0} (build : TrackedEntry → Option (OverlayAccountData C)) where
  abbrev pub key_of : OverlayCard C → String
  key_of card = card_key card.provider (id_or_empty card.account_id)

  -- The card is what `build` gives for one of the entries.
  abbrev pub IsBuilt : List TrackedEntry → OverlayCard C → Type 0
  IsBuilt [] card = ⊥
  IsBuilt (entry ∷ entries) card = (built_card build entry ≡ some card) ⊎ IsBuilt entries card

  built-same :
      (entry : TrackedEntry) (card : OverlayCard C)
      → built_card build entry ≡ some card
      → (card.provider ≡ provider_text entry.provider) × (card.account_id ≡ some entry.id)
  unfolding built_card
  built-same entry card h = elim (Option-cases (build entry)) [
    | inl e ↦ absurd (ground (arith, e))
    | inr (d, e) ↦ ground (
      arith,
      e,
      eq_iff d.card.provider (provider_text entry.provider),
      has_account_id-some d.card.account_id entry.id,
    )
  ]

  built-key :
      (entry : TrackedEntry) (card : OverlayCard C)
      → built_card build entry ≡ some card
      → key_of card ≡ card_key (provider_text entry.provider) entry.id
  unfolding id_or_empty
  built-key entry card h =
      let (provider, id) = built-same entry card h in ap₂ card_key provider (ap id_or_empty id)

  extras-Fresh :
      (seen : List String) (entries : List TrackedEntry)
      → Fresh seen (map key_of (extras_from build seen entries))
  unfolding extras_from
  extras-Fresh seen [] = tt
  extras-Fresh seen (entry ∷ entries) =
      let key = card_key (provider_text entry.provider) entry.id in
      elim (Bool-cases (contains seen key)) [
        | inl e ↦ rw (e, extras_from) (extras-Fresh seen entries)
        | inr e ↦
            rw (e, extras_from)
              (elim (Option-cases (built_card build entry)) [
                | inl n ↦ rw n (extras-Fresh seen entries)
                | inr (card, b) ↦
                    rw b (rw (built-key entry card b) (e, extras-Fresh (key ∷ seen) entries))
              ])
      ]

  extras-IsBuilt :
      (seen : List String) (entries : List TrackedEntry)
      → All (IsBuilt entries) (extras_from build seen entries)
  unfolding extras_from
  extras-IsBuilt seen [] = tt
  extras-IsBuilt seen (entry ∷ entries) =
      let key = card_key (provider_text entry.provider) entry.id in
      let weaken : (seen : List String)
          → All (IsBuilt (entry ∷ entries)) (extras_from build seen entries) =
        λ seen.
          All-imp (λ card h. inr h) (extras_from build seen entries)
            (extras-IsBuilt seen entries) in
      elim (Bool-cases (contains seen key)) [
        | inl e ↦ rw (e, extras_from) (weaken seen)
        | inr e ↦
            rw (e, extras_from)
              (elim (Option-cases (built_card build entry)) [
                | inl n ↦ rw n (weaken seen)
                | inr (card, b) ↦ rw b (inl b, weaken (key ∷ seen))
              ])
      ]

  list-with_extras :
      (card : OverlayCard C) (extras : List (OverlayCard C))
      → list_overlay_accounts (some (with_extras card extras)) ≡ card ∷ extras
  unfolding list_overlay_accounts with_extras
  list-with_extras card [] = refl
  list-with_extras card (extra ∷ extras) = refl

  -- The accounts that the overlay lists are the primary one and then cards that were built for the
  -- tracked entries; no two of these have one key, and none has the key of the primary account.
  pub attached-Fresh :
      (primary : OverlayAccountData C) (entries : List TrackedEntry)
      → (extras : List (OverlayCard C)) × (list_overlay_accounts
            (some (attach_additional_accounts primary entries build))
          ≡ primary.card ∷ extras)
        × Fresh (primary_keys primary.card) (map key_of extras)
        × All (IsBuilt entries) extras
  unfolding attach_additional_accounts
  attached-Fresh primary entries =
      let extras = extras_from build (primary_keys primary.card) entries in
      (
        extras,
        list-with_extras primary.card extras,
        extras-Fresh (primary_keys primary.card) entries,
        extras-IsBuilt (primary_keys primary.card) entries,
      )
