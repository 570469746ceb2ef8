-- ===== src/Shortcuts/Matching.antt =====
-- A shortcut that is built from a key event, matched against events (src/utils/common/settings/shortcuts.ts).
use quota_shift.Prelude.{
  String, ◌≡◌, refl, ap, sym, ◌∙◌, Bool, true, false, not, ◌&&◌, ◌||◌, some, List, [], ◌∷◌, ◌++◌,
  All, find, map, if◌then◌else◌, ◌==◌, contains, contains-append, eq_iff, All-append, if_holds, ap₂,
  arith,
}
use quota_shift.Js.{is_empty, trim, split_on, join, append, every_char, Avoids, split_on-join}
use quota_shift.Shortcuts.{
  KeyEvent, has_primary, modifier_parts, is_modifier, same_flag, same_key, key_name_from_event,
  build_shortcut_from_key_event, modifiers_match, key_matches, matches_shortcut_event,
}

-- A key's name that survives in a shortcut: no separator, no outer white space, not a modifier's.
pub record IsKeyName (name : String) : Type 0 where
  pub no_separator : Avoids b'+' name
  pub trimmed : trim name ≡ name
  pub no_modifier : is_modifier name ≡ false

-- What every part for a modifier is.
record IsPart (part : String) : Type 0 where
  part_no_separator : Avoids b'+' part
  part_trimmed : trim part ≡ part
  part_modifier : is_modifier part ≡ true

flag-IsPart : (b : Bool) (part : String) → IsPart part → All IsPart (if b then part ∷ [] else [])
flag-IsPart b part h = if_holds (All IsPart) b (h, tt) tt

modifier_parts-IsPart : (p a s : Bool) → All IsPart (modifier_parts p a s)
unfolding modifier_parts is_modifier trim contains every_char
modifier_parts-IsPart p a s =
    All-append IsPart _ _
      (flag-IsPart p "CommandOrControl"
        (record { part_no_separator = refl; part_trimmed = refl; part_modifier = refl }))
      (All-append IsPart _ _
        (flag-IsPart a "Alt"
          (record { part_no_separator = refl; part_trimmed = refl; part_modifier = refl }))
        (flag-IsPart s "Shift"
          (record { part_no_separator = refl; part_trimmed = refl; part_modifier = refl })))

module _ (name : String) (named : IsKeyName name) where
  parts-Avoids : (ms : List String) → All IsPart ms → All (Avoids b'+') (ms ++ name ∷ [])
  parts-Avoids [] h = (named.no_separator, tt)
  parts-Avoids (m ∷ ms) h = (h.0.part_no_separator, parts-Avoids ms h.1)

  map-trim-parts : (ms : List String) → All IsPart ms → map trim (ms ++ name ∷ []) ≡ ms ++ name ∷ []
  map-trim-parts [] h = ap (λ n. n ∷ []) named.trimmed
  map-trim-parts (m ∷ ms) h = ap₂ (λ x xs. x ∷ xs) h.0.part_trimmed (map-trim-parts ms h.1)

  find-parts :
      (ms : List String)
      → All IsPart ms
      → find (λ part. not (is_modifier part)) (ms ++ name ∷ []) ≡ some name
  find-parts [] h = rw named.no_modifier
  find-parts (m ∷ ms) h = rw h.0.part_modifier (find-parts ms h.1)

  split_on-parts :
      (ms : List String)
      → All IsPart ms
      → split_on b'+' (join "+" (ms ++ name ∷ [])) ≡ ms ++ name ∷ []
  split_on-parts [] h = split_on-join b'+' "+" name [] refl (parts-Avoids [] h)
  split_on-parts (m ∷ ms) h =
      split_on-join b'+' "+" m (ms ++ name ∷ []) refl (parts-Avoids (m ∷ ms) h)

contains-flag : (b : Bool) (m x : String) → contains (if b then m ∷ [] else []) x ≡ (b && m == x)
unfolding contains
contains-flag true m x = ground arith
contains-flag false m x = refl

contains-modifier_parts :
    (p a s : Bool) (x : String)
    → contains (modifier_parts p a s) x
      ≡ (p && "CommandOrControl" == x || (a && "Alt" == x || s && "Shift" == x))
unfolding modifier_parts
contains-modifier_parts p a s x = rw (
  contains-append (if p then "CommandOrControl" ∷ [] else [])
      ((if a then "Alt" ∷ [] else []) ++ (if s then "Shift" ∷ [] else [])) x,
  contains-append (if a then "Alt" ∷ [] else []) (if s then "Shift" ∷ [] else []) x,
  contains-flag p "CommandOrControl" x,
  contains-flag a "Alt" x,
  contains-flag s "Shift" x,
)

contains-parts :
    (p a s : Bool) (name x : String)
    → (x == name) ≡ false
    → contains (modifier_parts p a s ++ name ∷ []) x
      ≡ (p && "CommandOrControl" == x || (a && "Alt" == x || s && "Shift" == x))
unfolding contains
contains-parts p a s name x h =
    contains-append (modifier_parts p a s) (name ∷ []) x
    ∙ ground (arith, contains-modifier_parts p a s x, eq_iff x name, eq_iff name x)

modifiers_match-parts :
    (e : KeyEvent) (p a s : Bool) (name : String)
    → is_modifier name ≡ false
    → modifiers_match e (modifier_parts p a s ++ name ∷ [])
      ≡ (same_flag (has_primary e) p && (same_flag e.alt_key a && same_flag e.shift_key s))
unfolding modifiers_match same_flag has_primary is_modifier contains
modifiers_match-parts e p a s name h =
    rw
      (
        contains-parts p a s name "CommandOrControl" (ground arith),
        contains-parts p a s name "CmdOrCtrl" (ground arith),
        contains-parts p a s name "Control" (ground arith),
        contains-parts p a s name "Command" (ground arith),
        contains-parts p a s name "Alt" (ground arith),
        contains-parts p a s name "Option" (ground arith),
        contains-parts p a s name "Shift" (ground arith),
      )
      (ground arith)

not_empty-append : (s t : String) → is_empty (append s (append "+" t)) ≡ false
unfolding append
not_empty-append String.[] t = refl
not_empty-append (String.◌∷◌ c s) t = refl

not_empty-join :
    (ms : List String) (name : String)
    → is_empty name ≡ false
    → is_empty (join "+" (ms ++ name ∷ [])) ≡ false
unfolding join
not_empty-join [] name h = h
not_empty-join (m ∷ []) name h = not_empty-append m name
not_empty-join (m ∷ n ∷ ms) name h = not_empty-append m (join "+" (n ∷ ms ++ name ∷ []))

module _ (to_upper : String → String) where
  -- The two events hold the same modifiers, where Control and Meta count as one, and the same key.
  unfoldable pub same_combination : String → KeyEvent → KeyEvent → Bool
  same_combination name e built =
      same_flag (has_primary e) (has_primary built)
      && (same_flag e.alt_key built.alt_key && same_flag e.shift_key built.shift_key)
      && same_key to_upper (some name) (key_name_from_event to_upper e)

  built_parts :
      (built : KeyEvent) (name shortcut : String)
      → key_name_from_event to_upper built ≡ some name
      → build_shortcut_from_key_event to_upper built ≡ some shortcut
      → (is_empty name ≡ false)
        × (join "+" (modifier_parts (has_primary built) built.alt_key built.shift_key ++ name ∷ [])
            ≡ shortcut)
  unfolding build_shortcut_from_key_event
  built_parts built name shortcut key_named h = ground arith

  key_matches-parts :
      (e : KeyEvent) (ms : List String) (name : String)
      → IsKeyName name
      → All IsPart ms
      → key_matches to_upper e (ms ++ name ∷ [])
        ≡ same_key to_upper (some name) (key_name_from_event to_upper e)
  unfolding key_matches
  key_matches-parts e ms name named parts =
      ap (λ key. same_key to_upper key (key_name_from_event to_upper e))
        (find-parts name named ms parts)

  -- A shortcut that was built from one event, whose key has a name that a shortcut can hold, matches exactly
  -- the events of the same combination: Control or Meta held or not, Alt and Shift as they were, and the key.
  pub matches-built :
      (built e : KeyEvent) (name shortcut : String)
      → key_name_from_event to_upper built ≡ some name
      → IsKeyName name
      → build_shortcut_from_key_event to_upper built ≡ some shortcut
      → matches_shortcut_event to_upper e shortcut ≡ same_combination name e built
  unfolding matches_shortcut_event same_combination
  matches-built built e name shortcut key_named named h =
      let facts = built_parts built name shortcut key_named h in
      let p = has_primary built in
      let ms = modifier_parts p built.alt_key built.shift_key in
      let known = modifier_parts-IsPart p built.alt_key built.shift_key in
      ap (matches_shortcut_event to_upper e) (sym facts.1)
      ∙ rw (
        not_empty-join ms name facts.0,
        split_on-parts name named ms known,
        map-trim-parts name named ms known,
        modifiers_match-parts e p built.alt_key built.shift_key name named.no_modifier,
        key_matches-parts e ms name named known,
      )
