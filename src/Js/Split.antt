-- ===== src/Js/Split.antt =====
-- `split`, `join`, `slice` and `toString` of strings and Booleans, as far as the modelled code uses them.
use Prim.Native.Char.{Char, code}
use quota_shift.Prelude.{
  ℕ, zero, suc, String, ◌≡◌, refl, ap, ◌∙◌, true, not, List, [], ◌∷◌, eqb, arith, if◌then◌else◌,
  All,
}
use quota_shift.Js.Text.{every_char}

-- The text without its first n characters.
unfoldable pub drop : ℕ → String → String
drop zero s = s
drop (suc n) String.[] = ""
drop (suc n) (String.◌∷◌ c s) = drop n s

unfoldable pub append : String → String → String
append String.[] t = t
append (String.◌∷◌ c s) t = String.◌∷◌ c (append s t)

unfoldable pub push_char : Char → List String → List String
push_char c [] = (String.◌∷◌ c "") ∷ []
push_char c (part ∷ parts) = (String.◌∷◌ c part) ∷ parts

-- `s.split(sep)` by one character.
unfoldable pub split_on : ℕ → String → List String
unfolding push_char
split_on sep String.[] = "" ∷ []
split_on sep (String.◌∷◌ c s) =
    let parts = split_on sep s in if eqb (code c) sep then "" ∷ parts else push_char c parts

-- `parts.join(sep)`
unfoldable pub join : String → List String → String
unfolding append
join sep [] = ""
join sep (part ∷ []) = part
join sep (part ∷ next ∷ parts) = append part (append sep (join sep (next ∷ parts)))

-- The character occurs nowhere.
abbrev pub Avoids : ℕ → String → Type 0
Avoids sep s = every_char (λ c. not (eqb c sep)) s ≡ true

split_test : split_on b'+' "Alt+ +D" ≡ "Alt" ∷ " " ∷ "D" ∷ []
unfolding split_on push_char
split_test = refl

join_test : join " + " ("Ctrl" ∷ "D" ∷ []) ≡ "Ctrl + D"
unfolding join append
join_test = refl

module _ (sep : ℕ) where
  split_on-Avoids : (s : String) → Avoids sep s → split_on sep s ≡ s ∷ []
  unfolding split_on push_char every_char
  split_on-Avoids String.[] h = refl
  split_on-Avoids (String.◌∷◌ c s) h = ground (arith, split_on-Avoids s)

  split_on-append :
      (s t : String) (c : Char)
      → Avoids sep s
      → eqb (code c) sep ≡ true
      → split_on sep (append s (String.◌∷◌ c t)) ≡ s ∷ split_on sep t
  unfolding split_on push_char append every_char
  split_on-append String.[] t c h same = rw same
  split_on-append (String.◌∷◌ x s) t c h same = ground (arith, split_on-append s t c)

  -- Splitting at a character undoes joining by it, where no part contains it.
  pub split_on-join :
      (c : Char) (part : String) (parts : List String)
      → eqb (code c) sep ≡ true
      → All (Avoids sep) (part ∷ parts)
      → split_on sep (join (String.◌∷◌ c "") (part ∷ parts)) ≡ part ∷ parts
  unfolding join append
  split_on-join c part [] same h = split_on-Avoids part h.0
  split_on-join c part (next ∷ parts) same h =
      split_on-append part _ c h.0 same ∙ ap (λ ps. part ∷ ps) (split_on-join c next parts same h.1)
