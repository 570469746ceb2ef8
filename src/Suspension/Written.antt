-- ===== src/Suspension/Written.antt =====
-- Lists of paused accounts as fields of the state, and the state that is read after a write
-- (src/utils/account/capture/account-poll-suspension.ts).
use quota_shift.Prelude.{
  String, ◌≡◌, refl, ap, ◌∙◌, Bool, true, false, not, ◌&&◌, ◌||◌, Option, some, List, [], ◌∷◌, map,
  if◌then◌else◌, ◌==◌, contains, eq_iff, arith, if_true_holds,
}
use quota_shift.Js.{
  Value, str, arr, obj, Fields, no_fields, field, find_field, array_or_empty, texts_of,
  texts_of-map-str, items, elems-items, is_empty,
}
use quota_shift.Browser.{Storage, set_item}
use quota_shift.Browser.Keys.{read_raw-set_item, set_item-SameAccess}
use quota_shift.Backup.{put_field}
use quota_shift.Suspension.{
  storage_key, PollingProvider, antigravity, codex, state_of, stored_text, suspended_ids, with_ids,
  distinct_from, read_state, write_state,
}

pub find_field-put_field :
    (fs : Fields) (key other : String) (v : Value)
    → find_field (put_field key v fs) other ≡ (if key == other then v else find_field fs other)
unfolding find_field put_field
find_field-put_field no_fields key other v = refl
find_field-put_field (field name old fs) key other v = ground (
  arith,
  find_field-put_field fs key other v,
  eq_iff name key,
  eq_iff name other,
  eq_iff key other,
)

abbrev pub same_provider : PollingProvider → PollingProvider → Bool
same_provider antigravity antigravity = true
same_provider codex codex = true
same_provider _ _ = false

pub written_ids : (ids : List String) → texts_of (array_or_empty (arr (items (map str ids)))) ≡ ids
unfolding array_or_empty
written_ids ids = ap texts_of (elems-items (map str ids)) ∙ texts_of-map-str ids

pub suspended_ids-with_ids :
    (p q : PollingProvider) (ids : List String) (state : Fields)
    → suspended_ids (with_ids p ids state) q
      ≡ (if same_provider p q then ids else suspended_ids state q)
unfolding suspended_ids with_ids array_or_empty
suspended_ids-with_ids antigravity antigravity ids state =
    rw (find_field-put_field state "antigravity" "antigravity" (arr (items (map str ids))))
      (written_ids ids)
suspended_ids-with_ids codex codex ids state =
    rw (find_field-put_field state "codex" "codex" (arr (items (map str ids)))) (written_ids ids)
suspended_ids-with_ids antigravity codex ids state =
    rw (find_field-put_field state "antigravity" "codex" (arr (items (map str ids))))
suspended_ids-with_ids codex antigravity ids state =
    rw (find_field-put_field state "codex" "antigravity" (arr (items (map str ids))))

pub contains-distinct_from :
    (seen ids : List String) (a : String)
    → contains (distinct_from seen ids) a ≡ (contains ids a && not (contains seen a))
unfolding distinct_from contains
contains-distinct_from seen [] a = refl
contains-distinct_from seen (id ∷ rest) a = ground (
  arith,
  contains-distinct_from seen rest a,
  contains-distinct_from (id ∷ seen) rest a,
  eq_iff id a,
)

pub same-suspended_ids :
    (p q : PollingProvider) (state : Fields)
    → same_provider p q ≡ true
    → suspended_ids state p ≡ suspended_ids state q
same-suspended_ids antigravity antigravity state h = refl
same-suspended_ids codex codex state h = refl
same-suspended_ids antigravity codex state h = cc
same-suspended_ids codex antigravity state h = cc

pub distribute : (u v w : Bool) → (u && (v || w)) ≡ (u && v || u && w)
distribute u v w = ground arith

pub associate : (u v w : Bool) → (u && (v && w)) ≡ (u && v && w)
associate u v w = ground arith

pub guarded : (e c : Bool) → (if e then false else c) ≡ (not e && c)
guarded e c = ground arith

module _ (parse : String → Option Value) (stringify : Value → String) where
  -- The state is read again from the text that is written for it.
  abbrev pub Rereads : Fields → Type 0
  Rereads state =
      (is_empty (stringify (obj state)) ≡ false)
      × (parse (stringify (obj state)) ≡ some (obj state))

  pub read_state-write_state :
      (state : Fields) (s : Storage)
      → Rereads state
      → s.readable ≡ true
      → s.writable ≡ true
      → read_state parse (write_state parse stringify state (some s)) ≡ state
  unfolding read_state write_state stored_text state_of
  read_state-write_state state s rereads readable writable =
      let same = set_item-SameAccess storage_key (stringify (obj state)) s in
      if_true_holds (λ read. read ≡ state) (set_item storage_key (stringify (obj state)) s).readable
        _ _ (same.0 ∙ readable)
        (ap (λ raw. state_of (parse (stored_text raw)))
            (read_raw-set_item storage_key (stringify (obj state)) storage_key s readable writable)
          ∙ rw (rereads.0, rereads.1))
