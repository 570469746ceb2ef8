-- ===== src/Overlay.antt =====
-- src/utils/common/overlay/overlay-extra-accounts.ts: the further tracked accounts in the overlay's data.
-- A card is the overlay's data of one account without its further accounts, of which the code reads the
-- provider and the account id; C is the type of the rest.
pub mod Extras
use Prim.Native.String
use quota_shift.Prelude.{
  String, Bool, true, false, not, ◌&&◌, Option, none, some, List, [], ◌∷◌, contains, if◌then◌else◌,
  ◌==◌,
}
use quota_shift.Js.{is_empty}
use quota_shift.Tracked.{TrackedEntry, provider_text}

pub record OverlayCard (C : Type 0) : Type 0 where
  pub provider : String
  pub account_id : Option String
  pub rest : C

pub record OverlayAccountData (C : Type 0) : Type 0 where
  pub card : OverlayCard C
  pub additional_accounts : Option (List (OverlayCard C))

unfoldable pub card_key : String → String → String
card_key provider account_id = String.◌++◌ provider (String.◌++◌ ":" account_id)

unfoldable pub id_or_empty : Option String → String
id_or_empty none = ""
id_or_empty (some id) = id

-- `data.accountId === entry.id`
unfoldable pub has_account_id : Option String → String → Bool
has_account_id none id = false
has_account_id (some a) id = a == id

module _ {C : Type 0} where
  -- The keys that are seen before the loop.
  unfoldable pub primary_keys : OverlayCard C → List String
  unfolding id_or_empty
  primary_keys primary =
      if is_empty (id_or_empty primary.account_id)
      then []
      else card_key primary.provider (id_or_empty primary.account_id) ∷ []

  -- The card that `build` gives for the entry, if it is this account's.
  unfoldable pub built_card :
      (TrackedEntry → Option (OverlayAccountData C)) → TrackedEntry → Option (OverlayCard C)
  unfolding has_account_id
  built_card build entry = elim (build entry) [
    | none ↦ none
    | some built ↦
        if built.card.provider == provider_text entry.provider
          && has_account_id built.card.account_id entry.id
        then some built.card
        else none
  ]

  unfoldable pub extras_from :
      (TrackedEntry → Option (OverlayAccountData C))
      → List String
      → List TrackedEntry
      → List (OverlayCard C)
  extras_from build seen [] = []
  extras_from build seen (entry ∷ entries) =
      let key = card_key (provider_text entry.provider) entry.id in
      let skipping = extras_from build seen entries in
      let adding = extras_from build (key ∷ seen) entries in
      if contains seen key
      then skipping
      else elim (built_card build entry) [ none ↦ skipping | some card ↦ card ∷ adding ]

  unfoldable pub with_extras : OverlayCard C → List (OverlayCard C) → OverlayAccountData C
  with_extras card [] = record { card = card; additional_accounts = none }
  with_extras card (extra ∷ extras) = record {
    card = card;
    additional_accounts = some (extra ∷ extras);
  }

  unfoldable pub attach_additional_accounts :
      OverlayAccountData C
      → List TrackedEntry
      → (TrackedEntry → Option (OverlayAccountData C))
      → OverlayAccountData C
  unfolding with_extras extras_from primary_keys
  attach_additional_accounts primary entries build =
      with_extras primary.card (extras_from build (primary_keys primary.card) entries)

  unfoldable pub list_overlay_accounts : Option (OverlayAccountData C) → List (OverlayCard C)
  list_overlay_accounts none = []
  list_overlay_accounts (some payload) =
      payload.card ∷ elim payload.additional_accounts [ none ↦ [] | some cards ↦ cards ]
