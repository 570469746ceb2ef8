-- ===== src/Shortcuts.antt =====
-- Keyboard shortcuts (src/utils/common/settings/shortcuts.ts): how one is built from a key event, matched
-- against one, and displayed. `toUpperCase` is the parameter `to_upper`.
pub mod Preferences
pub mod Saved
pub mod Matching
use Prim.Native.Char.{code}
use text.Mathlib.Text.{starts_with}
use quota_shift.Prelude.{
  ℕ, String, Bool, true, false, not, ◌&&◌, ◌||◌, Option, none, some, List, [], ◌∷◌, ◌++◌, find, map,
  leb, eqb, if◌then◌else◌, ◌==◌, lookup, contains,
}
use quota_shift.Js.{is_empty, trim, is_digit, is_alnum, every_char, size, drop, split_on, join}

pub record KeyEvent : Type 0 where
  pub ctrl_key : Bool
  pub alt_key : Bool
  pub shift_key : Bool
  pub meta_key : Bool
  pub key : String
  pub code : Option String

-- `e.code`, where a missing one is no more than an empty one.
unfoldable pub code_text : KeyEvent → String
code_text e = elim e.code [ none ↦ "" | some text ↦ text ]

-- `/^F\d{1,2}$/i`
unfoldable pub is_function_key : String → Bool
unfolding every_char is_digit size
is_function_key String.[] = false
is_function_key (String.◌∷◌ c s) =
    (eqb (code c) b'F' || eqb (code c) b'f')
    && (every_char is_digit s && (leb 1 (size s) && leb (size s) 2))

-- `key.length === 1 && /[a-zA-Z0-9]/.test(key)`
unfoldable pub is_single_alnum : String → Bool
unfolding every_char is_alnum size
is_single_alnum key = eqb (size key) 1 && every_char is_alnum key

-- The names of punctuation keys by `e.code`. A code is one that browsers send, so that none names a member of
-- `Object.prototype`.
abbrev pub punctuation : List (String × String)
punctuation =
    ("Comma", ",")
    ∷ ("Period", ".")
    ∷ ("Slash", "/")
    ∷ ("Semicolon", ";")
    ∷ ("Quote", "'")
    ∷ ("BracketLeft", "[")
    ∷ ("BracketRight", "]")
    ∷ ("Backslash", "\\")
    ∷ ("Minus", "-")
    ∷ ("Equal", "=")
    ∷ ("Space", "Space")
    ∷ []

-- The names of keys that `e.key` has for the modifiers themselves.
abbrev pub modifier_keys : List String
modifier_keys = "Control" ∷ "Alt" ∷ "Shift" ∷ "Meta" ∷ []

-- `modifierNames.has(part)`
unfoldable pub is_modifier : String → Bool
unfolding contains
is_modifier part =
    contains
      ("CommandOrControl" ∷ "CmdOrCtrl" ∷ "Control" ∷ "Command" ∷ "Alt" ∷ "Option" ∷ "Shift" ∷ [])
      part

unfoldable pub has_primary : KeyEvent → Bool
has_primary e = e.ctrl_key || e.meta_key

-- The parts of a shortcut for the modifiers that are held, in their order.
unfoldable pub modifier_parts : (primary alt shift : Bool) → List String
modifier_parts primary alt shift =
    (if primary then "CommandOrControl" ∷ [] else [])
    ++ ((if alt then "Alt" ∷ [] else []) ++ (if shift then "Shift" ∷ [] else []))

-- `x === y` of flags
unfoldable pub same_flag : Bool → Bool → Bool
same_flag true b = b
same_flag false b = not b

-- The modifiers that the parts ask for are the ones that are held.
unfoldable pub modifiers_match : KeyEvent → List String → Bool
unfolding contains has_primary same_flag
modifiers_match e parts =
    let expects_primary = contains parts "CommandOrControl" || contains parts "CmdOrCtrl" in
    let expects_control = contains parts "Control" in
    let expects_command = contains parts "Command" in
    let expects_alt = contains parts "Alt" || contains parts "Option" in
    let expects_shift = contains parts "Shift" in
    if (if expects_primary
      then not (has_primary e)
      else if expects_control
      then not e.ctrl_key
      else e.ctrl_key)
    then false
    else if (if expects_command then not e.meta_key else not expects_primary && e.meta_key)
    then false
    else same_flag e.alt_key expects_alt && same_flag e.shift_key expects_shift

module _ (to_upper : String → String) where
  unfoldable pub key_name_from_event : KeyEvent → Option String
  unfolding code_text is_function_key is_single_alnum drop lookup
  key_name_from_event e =
      if starts_with (code_text e) "Key"
      then some (to_upper (drop 3 (code_text e)))
      else if starts_with (code_text e) "Digit"
      then some (drop 5 (code_text e))
      else if is_function_key e.key
      then some (to_upper e.key)
      else if is_single_alnum e.key
      then some (to_upper e.key)
      else lookup (code_text e) punctuation

  unfoldable pub build_shortcut_from_key_event : KeyEvent → Option String
  unfolding key_name_from_event has_primary modifier_parts contains join
  build_shortcut_from_key_event e =
      if contains modifier_keys e.key
      then none
      else if not (has_primary e || e.alt_key || e.shift_key)
      then none
      else elim (key_name_from_event e) [
        | none ↦ none
        | some name ↦
            if is_empty name
            then none
            else some (join "+" (modifier_parts (has_primary e) e.alt_key e.shift_key ++ name ∷ []))
      ]

  -- The part and the key of the event, where both are there, are the same in capitals.
  unfoldable pub same_key : Option String → Option String → Bool
  same_key none _ = false
  same_key (some expected) none = false
  same_key (some expected) (some name) =
      not (is_empty expected) && (not (is_empty name) && to_upper expected == to_upper name)

  -- The first part that names no modifier is the key of the event.
  unfoldable pub key_matches : KeyEvent → List String → Bool
  unfolding key_name_from_event is_modifier same_key
  key_matches e parts =
      same_key (find (λ part. not (is_modifier part)) parts) (key_name_from_event e)

  unfoldable pub matches_shortcut_event : KeyEvent → String → Bool
  unfolding modifiers_match key_matches split_on trim
  matches_shortcut_event e shortcut =
      let parts = map trim (split_on b'+' shortcut) in
      if is_empty shortcut then false else modifiers_match e parts && key_matches e parts

-- One part as it is displayed; `is_mac` is the test of the platform's name.
unfoldable pub display_part : (is_mac : Bool) → String → String
unfolding trim
display_part is_mac part =
    let p = trim part in
    if p == "CommandOrControl" || p == "CmdOrCtrl"
    then (if is_mac then "Cmd" else "Ctrl")
    else if p == "Command"
    then "Cmd"
    else if p == "Control"
    then "Ctrl"
    else p

unfoldable pub format_shortcut_display : (is_mac : Bool) → String → String
unfolding display_part split_on join
format_shortcut_display is_mac shortcut =
    if is_empty shortcut
    then ""
    else join " + " (map (display_part is_mac) (split_on b'+' shortcut))
