-- ===== src/Tiers/Text.antt =====
-- `s.includes(t)` and `/\bword\b/.test(s)`.
use Prim.Native.Char.{code}
use Prim.Native.String.{[], ◌∷◌}
use text.Mathlib.Text.{starts_with}
use quota_shift.Prelude.{ℕ, zero, suc, String, ◌≡◌, refl, Bool, true, false, not, ◌&&◌, ◌||◌, eqb}
use quota_shift.Js.{is_alnum, size}

unfoldable pub includes : String → String → Bool
includes [] t = starts_with "" t
includes (c ∷ s) t = starts_with (c ∷ s) t || includes s t

-- `\w`
unfoldable pub is_word : ℕ → Bool
is_word c = is_alnum c || eqb c 95

-- The text after n characters is at a word's end.
unfoldable pub ends_word : ℕ → String → Bool
unfolding is_word
ends_word n [] = true
ends_word zero (c ∷ s) = not (is_word (code c))
ends_word (suc n) (c ∷ s) = ends_word n s

-- `inside` says whether the character before is a word character.
unfoldable pub word_from : Bool → String → String → Bool
unfolding ends_word is_word
word_from inside [] word = false
word_from inside (c ∷ s) word =
    (not inside && starts_with (c ∷ s) word && ends_word (size word) (c ∷ s))
    || word_from (is_word (code c)) s word

unfoldable pub has_word : String → String → Bool
unfolding word_from
has_word s word = word_from false s word

has_word_test : has_word "chat go plan" "go" ≡ true
unfolding has_word is_alnum size
has_word_test = refl

has_no_word_test : has_word "google" "go" ≡ false
unfolding has_word is_alnum size
has_no_word_test = refl

includes_test : includes "chatgpt plus" "plus" ≡ true
unfolding includes
includes_test = refl
