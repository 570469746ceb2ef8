-- ===== src/Browser/Keys.antt =====
-- What a key of a storage reads after a write or a removal.
use quota_shift.Prelude.{
  String, ◌≡◌, ◌∙◌, ap, Option, All, keys, contains, Distinct, not, ◌&&◌, refl, if_holds, true,
  none, some, List, [], ◌∷◌, lookup, lookup-insert, if◌then◌else◌, ◌==◌, eq_iff, arith,
}
use quota_shift.Browser.{
  Storage, set_item, remove_key, remove_item, clear_items, set_items, read_raw,
}

pub read_raw-set_item :
    (key text other : String) (s : Storage)
    → s.readable ≡ true
    → s.writable ≡ true
    → read_raw (some (set_item key text s)) other
      ≡ (if key == other then some text else lookup other s.entries)
unfolding read_raw set_item
read_raw-set_item key text other s readable writable =
    ground (arith, lookup-insert key other text s.entries)

pub lookup-remove_key :
    (key other : String) (m : List (String × String))
    → lookup other (remove_key key m) ≡ (if key == other then none else lookup other m)
unfolding lookup remove_key
lookup-remove_key key other [] = ground arith
lookup-remove_key key other ((name, text) ∷ m) =
    ground
      (arith, lookup-remove_key key other m, eq_iff name key, eq_iff name other, eq_iff key other)

pub read_raw-remove_item :
    (key other : String) (s : Storage)
    → s.readable ≡ true
    → s.writable ≡ true
    → read_raw (some (remove_item key s)) other
      ≡ (if key == other then none else lookup other s.entries)
unfolding read_raw remove_item
read_raw-remove_item key other s readable writable =
    ground (arith, lookup-remove_key key other s.entries)

-- No operation changes what the storage allows.
abbrev pub SameAccess : Storage → Storage → Type 0
SameAccess s t = (t.readable ≡ s.readable) × (t.writable ≡ s.writable)

pub set_item-SameAccess : (key text : String) (s : Storage) → SameAccess s (set_item key text s)
unfolding set_item
set_item-SameAccess key text s = if_holds (SameAccess s) s.writable (refl, refl) (refl, refl)

pub remove_item-SameAccess : (key : String) (s : Storage) → SameAccess s (remove_item key s)
unfolding remove_item
remove_item-SameAccess key s = if_holds (SameAccess s) s.writable (refl, refl) (refl, refl)

pub clear_items-SameAccess : (s : Storage) → SameAccess s (clear_items s)
unfolding clear_items
clear_items-SameAccess s = if_holds (SameAccess s) s.writable (refl, refl) (refl, refl)

pub All-keys-remove_key {κ} :
    (P : String → Type κ) (k : String) (m : List (String × String))
    → All P (keys m)
    → All P (keys (remove_key k m))
unfolding remove_key
All-keys-remove_key P k [] h = tt
All-keys-remove_key P k ((i, w) ∷ m) h = ground (arith, All-keys-remove_key P k m h.1)

pub contains-keys-remove_key :
    (k other : String) (m : List (String × String))
    → contains (keys (remove_key k m)) other ≡ (contains (keys m) other && not (k == other))
unfolding remove_key contains
contains-keys-remove_key k other [] = refl
contains-keys-remove_key k other ((i, w) ∷ m) =
    ground (arith, contains-keys-remove_key k other m, eq_iff i k, eq_iff i other, eq_iff k other)

pub Distinct-keys-remove_key :
    (k : String) (m : List (String × String)) → Distinct (keys m) → Distinct (keys (remove_key k m))
unfolding remove_key
Distinct-keys-remove_key k [] h = tt
Distinct-keys-remove_key k ((i, w) ∷ m) h =
    ground (arith, Distinct-keys-remove_key k m h.1, contains-keys-remove_key k i m)

pub lookup-remove_item :
    (key other : String) (s : Storage)
    → s.writable ≡ true
    → lookup other (remove_item key s).entries
      ≡ (if key == other then none else lookup other s.entries)
unfolding remove_item
lookup-remove_item key other s w = ground (arith, lookup-remove_key key other s.entries)

-- What a key reads after writes, where it read `old` before: the last text written to it.
abbrev pub last_written : String → List (String × String) → Option String → Option String
last_written key [] old = old
last_written key ((name, text) ∷ rest) old =
    last_written key rest (if name == key then some text else old)

lookup-set_item :
    (key text other : String) (s : Storage)
    → s.writable ≡ true
    → lookup other (set_item key text s).entries
      ≡ (if key == other then some text else lookup other s.entries)
unfolding set_item
lookup-set_item key text other s w = ground (arith, lookup-insert key other text s.entries)

pub lookup-set_items :
    (key : String) (writes : List (String × String)) (s : Storage)
    → s.writable ≡ true
    → lookup key (set_items writes s).entries ≡ last_written key writes (lookup key s.entries)
unfolding set_items
lookup-set_items key [] s w = refl
lookup-set_items key ((name, text) ∷ rest) s w =
    let same = set_item-SameAccess name text s in
    lookup-set_items key rest (set_item name text s) (same.1 ∙ w)
    ∙ ap (last_written key rest) (lookup-set_item name text key s w)

pub set_items-SameAccess :
    (writes : List (String × String)) (s : Storage) → SameAccess s (set_items writes s)
unfolding set_items
set_items-SameAccess [] s = (refl, refl)
set_items-SameAccess ((name, text) ∷ rest) s =
    let same = set_item-SameAccess name text s in
    let later = set_items-SameAccess rest (set_item name text s) in
    (later.0 ∙ same.0, later.1 ∙ same.1)

pub read_raw-set_items :
    (key : String) (writes : List (String × String)) (s : Storage)
    → s.readable ≡ true
    → s.writable ≡ true
    → read_raw (some (set_items writes s)) key ≡ last_written key writes (read_raw (some s) key)
unfolding read_raw
read_raw-set_items key writes s readable writable =
    ground (arith, lookup-set_items key writes s writable, set_items-SameAccess writes s)
