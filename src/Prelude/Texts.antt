-- ===== src/Prelude/Texts.antt =====
-- Searching in texts of UTF-16 code units (`includes`, and word boundaries of a regular expression).
use Prim.Native.Nat.{ℕ}
use Prim.Native.String.{String, [] as empty, ◌∷◌ as cons}
use Prim.Native.Char.{code}
use mathlib.Core.Path.{◌≡◌, refl}
use mathlib.Core.Bool.{Bool, true, false, not, ◌&&◌, ◌||◌}
use mathlib.Core.List.{List, [], ◌∷◌}
use pi_smart_router.Prelude.Tests.{leb, ◌==◌}

-- The code units of a literal without characters above U+FFFF.
unfoldable pub units : String → List ℕ
units empty = []
units (cons c cs) = code c ∷ units cs

unfoldable pub starts_with : List ℕ → List ℕ → Bool
starts_with text [] = true
starts_with [] (c ∷ cs) = false
starts_with (t ∷ ts) (c ∷ cs) = (t == c) && starts_with ts cs

-- `===` on texts.
unfoldable pub text_eq : List ℕ → List ℕ → Bool
text_eq [] [] = true
text_eq (c ∷ cs) (d ∷ ds) = (c == d) && text_eq cs ds
text_eq _ _ = false

-- `text.includes(pattern)`
unfoldable pub includes : List ℕ → List ℕ → Bool
unfolding starts_with
includes [] pattern = starts_with [] pattern
includes (t ∷ ts) pattern = starts_with (t ∷ ts) pattern || includes ts pattern

abbrev between : ℕ → ℕ → ℕ → Bool
between low high c = leb low c && leb c high

-- `\w`: a letter, a digit or an underscore of ASCII.
abbrev pub is_word_unit : ℕ → Bool
is_word_unit c = between 97 122 c || between 65 90 c || between 48 57 c || (c == 95)

-- A word boundary follows a word: the text ends or its first unit is no word unit.
abbrev ends_word : List ℕ → Bool
ends_word [] = true
ends_word (c ∷ cs) = not (is_word_unit c)

unfoldable pub starts_with_word : List ℕ → List ℕ → Bool
starts_with_word text [] = ends_word text
starts_with_word [] (c ∷ cs) = false
starts_with_word (t ∷ ts) (c ∷ cs) = (t == c) && starts_with_word ts cs

-- `/\bphrase\b/.test(text)` for a phrase that begins and ends with word units; `boundary` says
-- whether the unit before the text is no word unit.
unfoldable pub has_phrase : Bool → List ℕ → List ℕ → Bool
unfolding starts_with_word
has_phrase boundary phrase [] = boundary && starts_with_word [] phrase
has_phrase boundary phrase (t ∷ ts) =
    (boundary && starts_with_word (t ∷ ts) phrase) || has_phrase (not (is_word_unit t)) phrase ts

phrase_found : has_phrase true (units "no errors") (units "ok: no errors.") ≡ true
unfolding has_phrase units
phrase_found = refl

phrase_inside_word : has_phrase true (units "no error") (units "piano errors") ≡ false
unfolding has_phrase units
phrase_inside_word = refl
