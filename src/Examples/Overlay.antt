-- ===== src/Examples/Overlay.antt =====
-- Further overlay accounts at concrete inputs.
use quota_shift.Prelude.{
  ℕ, String, ◌≡◌, refl, Option, none, some, List, [], ◌∷◌, map, All, Fresh, if◌then◌else◌, ◌==◌,
  contains,
}
use quota_shift.Tracked.{TrackedEntry, codex, claude, provider_text}
use quota_shift.Overlay.{
  OverlayCard, OverlayAccountData, primary_keys, attach_additional_accounts, list_overlay_accounts,
  card_key, id_or_empty, built_card,
}
use quota_shift.Overlay.Extras.{key_of, IsBuilt, attached-Fresh}

abbrev card : String → String → OverlayCard ℕ
card provider id = record { provider = provider; account_id = some id; rest = 0 }

abbrev build : TrackedEntry → Option (OverlayAccountData ℕ)
build entry =
    if entry.id == "gone"
    then none
    else some record {
      card = card (provider_text entry.provider) entry.id;
      additional_accounts = some (card "codex" "nested" ∷ []);
    }

abbrev primary : OverlayAccountData ℕ
primary = record { card = card "codex" "a"; additional_accounts = none }

abbrev entries : List TrackedEntry
entries =
    record { provider = codex; id = "a" }
    ∷ record { provider = claude; id = "gone" }
    ∷ record { provider = claude; id = "a" }
    ∷ record { provider = claude; id = "a" }
    ∷ []

listed_test :
    list_overlay_accounts (some (attach_additional_accounts primary entries build))
    ≡ card "codex" "a" ∷ card "claude" "a" ∷ []
unfolding list_overlay_accounts attach_additional_accounts card_key id_or_empty built_card contains
    provider_text
listed_test = refl

attached-Fresh_example :
    (extras : List (OverlayCard ℕ)) × (list_overlay_accounts
        (some (attach_additional_accounts primary entries build))
      ≡ primary.card ∷ extras)
    × Fresh (primary_keys primary.card) (map (key_of build) extras)
    × All (IsBuilt build entries) extras
attached-Fresh_example = attached-Fresh build primary entries
