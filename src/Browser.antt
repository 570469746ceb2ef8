-- ===== src/Browser.antt =====
-- The storage of the browser, `localStorage`, as the code reads and writes it: texts by key.
pub mod Keys
use quota_shift.Prelude.{
  String, Bool, true, false, Option, none, some, List, [], ◌∷◌, lookup, insert, if◌then◌else◌, ◌==◌,
}

-- `none` is a storage that is missing. Where `readable` is false, `getItem` throws; where `writable` is false, `setItem` and `removeItem` do;
-- `removable` is `typeof storage.removeItem === "function"`.
pub record Storage : Type 0 where
  pub entries : List (String × String)
  pub readable : Bool
  pub writable : Bool
  pub removable : Bool

unfoldable pub set_item : String → String → Storage → Storage
set_item key text s = if s.writable then record s { entries = insert key text s.entries } else s

unfoldable pub remove_key : String → List (String × String) → List (String × String)
remove_key key [] = []
remove_key key ((name, text) ∷ rest) =
    let later = remove_key key rest in if name == key then later else (name, text) ∷ later

unfoldable pub remove_item : String → Storage → Storage
unfolding remove_key
remove_item key s = if s.writable then record s { entries = remove_key key s.entries } else s

unfoldable pub read_raw : Option Storage → String → Option String
read_raw none key = none
read_raw (some s) key = if s.readable then lookup key s.entries else none

-- `storage.clear()`
unfoldable pub clear_items : Storage → Storage
clear_items s = if s.writable then record s { entries = [] } else s

-- One `setItem` after the other.
unfoldable pub set_items : List (String × String) → Storage → Storage
unfolding set_item
set_items [] s = s
set_items ((key, text) ∷ rest) s = set_items rest (set_item key text s)
