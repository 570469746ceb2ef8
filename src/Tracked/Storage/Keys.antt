-- ===== src/Tracked/Storage/Keys.antt =====
-- What the keys of a storage read after a write, and the primary account after a removal.
use quota_shift.Prelude.{
  ◌≡◌, refl, true, false, none, some, List, [], ◌∷◌, insert, lookup-insert, arith,
}
use quota_shift.Tracked.{TrackedEntry, provider_text, provider_named, is_tracked, same_entry}
use quota_shift.Browser.{Storage, set_item, remove_item, remove_key, read_raw}
use quota_shift.Browser.Keys.{lookup-remove_key}
use quota_shift.Tracked.Storage.{
  read_primary_entry, is_primary, next_primary, write_primary, forget_primary, reassign,
  tracked_list_key, overlay_tracked_account_id_key, overlay_tracked_provider_key,
}
use quota_shift.Tracked.Storage.Laws.{provider_named-provider_text}

read_list-next_primary :
    (updated : List TrackedEntry) (s : Storage)
    → read_raw (some (next_primary updated s)) tracked_list_key ≡ read_raw (some s) tracked_list_key
unfolding read_raw next_primary forget_primary write_primary remove_item set_item
read_list-next_primary [] s = ground (
  arith,
  lookup-remove_key overlay_tracked_provider_key tracked_list_key
      (remove_key overlay_tracked_account_id_key s.entries),
  lookup-remove_key overlay_tracked_account_id_key tracked_list_key s.entries,
  lookup-insert overlay_tracked_provider_key tracked_list_key ""
      (insert overlay_tracked_account_id_key "" s.entries),
  lookup-insert overlay_tracked_account_id_key tracked_list_key "" s.entries,
)
read_list-next_primary (e ∷ _) s = ground (
  arith,
  lookup-insert overlay_tracked_account_id_key tracked_list_key e.id
      (insert overlay_tracked_provider_key (provider_text e.provider) s.entries),
  lookup-insert overlay_tracked_provider_key tracked_list_key (provider_text e.provider) s.entries,
)

primary-forget :
    (s : Storage) → s.writable ≡ true → read_primary_entry (some (forget_primary s)) ≡ none
unfolding read_primary_entry read_raw forget_primary remove_item set_item provider_named
primary-forget s writable = ground (
  arith,
  lookup-remove_key overlay_tracked_provider_key overlay_tracked_provider_key
      (remove_key overlay_tracked_account_id_key s.entries),
  lookup-insert overlay_tracked_provider_key overlay_tracked_provider_key ""
      (insert overlay_tracked_account_id_key "" s.entries),
)

is_primary-write :
    (e entry : TrackedEntry) (s : Storage)
    → s.writable ≡ true
    → same_entry e entry ≡ false
    → is_primary (some (write_primary e s)) entry ≡ false
unfolding is_primary read_primary_entry read_raw write_primary set_item
is_primary-write e entry s writable other = ground (
  arith,
  provider_named-provider_text e.provider,
  lookup-insert overlay_tracked_account_id_key overlay_tracked_provider_key e.id
      (insert overlay_tracked_provider_key (provider_text e.provider) s.entries),
  lookup-insert overlay_tracked_account_id_key overlay_tracked_account_id_key e.id
      (insert overlay_tracked_provider_key (provider_text e.provider) s.entries),
  lookup-insert overlay_tracked_provider_key overlay_tracked_provider_key (provider_text e.provider)
      s.entries,
)

is_primary-next :
    (updated : List TrackedEntry) (entry : TrackedEntry) (s : Storage)
    → s.writable ≡ true
    → is_tracked updated entry ≡ false
    → is_primary (some (next_primary updated s)) entry ≡ false
unfolding next_primary is_tracked is_primary
is_primary-next [] entry s writable absent = rw (primary-forget s writable, is_primary) refl
is_primary-next (e ∷ _) entry s writable absent = is_primary-write e entry s writable (ground arith)

pub reassign-is_primary :
    (updated : List TrackedEntry) (entry : TrackedEntry) (s : Storage)
    → s.writable ≡ true
    → is_tracked updated entry ≡ false
    → is_primary (some (reassign updated entry s)) entry ≡ false
unfolding reassign
reassign-is_primary updated entry s writable absent =
    ground (arith, is_primary-next updated entry s)

pub read_list-reassign :
    (updated : List TrackedEntry) (entry : TrackedEntry) (s : Storage)
    → read_raw (some (reassign updated entry s)) tracked_list_key
      ≡ read_raw (some s) tracked_list_key
unfolding reassign
read_list-reassign updated entry s = ground (arith, read_list-next_primary updated s)
