-- ===== src/Text.antt =====
-- Texts that the program builds and takes apart again: lists of code points.
pub mod Print
use Prim.Native.Char.{code}
use mathlib.Core.Option
use forex_automated_copy_tra.Base.{
  ℕ, zero, suc, ◌+◌, ◌-◌, ◌*◌, ◌/◌, ◌%◌, Bool, true, false, ◌&&◌, Option, none, some, String, List,
  [], ◌∷◌, reverse, ltb, leb, ◌==◌, if◌then◌else◌,
}

abbrev pub Text : Type 0
Text = List ℕ

-- The code points of a literal.
abbrev pub codes : String → Text
codes String.[] = []
codes (String.◌∷◌ c s) = code c ∷ codes s

-- The digits of a whole number before a text that follows them.
unfoldable pub digits_before : ℕ → ℕ → Text → Text
digits_before zero n rest = rest
digits_before (suc f) n rest =
    let more = digits_before f (n / 10) ((48 + n % 10) ∷ rest) in
    if ltb n 10 then (48 + n) ∷ rest else more

-- Python's `str(n)`.
unfoldable pub str : ℕ → Text
unfolding digits_before
str n = digits_before (suc n) n []

abbrev pub is_digit : ℕ → Bool
is_digit c = leb b'0' c && leb c b'9'

-- Digits from the front, onto a number read so far, and what follows them.
unfoldable pub read_from : ℕ → Text → ℕ × Text
read_from acc [] = (acc, [])
read_from acc (c ∷ cs) =
    let more = read_from (acc * 10 + (c - 48)) cs in if is_digit c then more else (acc, c ∷ cs)

abbrev pub all_read : ℕ × Text → Option ℕ
all_read (n, []) = some n
all_read (n, c ∷ cs) = none

-- Python's `int(s)` of a text of ASCII digits; `none` is ValueError. The other spellings that `int`
-- takes (a sign, spaces, underscores) are none that the program prints.
unfoldable pub int : Text → Option ℕ
int [] = none
int (c ∷ cs) = all_read (read_from 0 (c ∷ cs))

-- `s[len(prefix):]` of a text that starts with the prefix.
unfoldable pub strip_prefix : Text → Text → Option Text
strip_prefix [] s = some s
strip_prefix (p ∷ ps) [] = none
strip_prefix (p ∷ ps) (c ∷ cs) = let rest = strip_prefix ps cs in if p == c then rest else none

-- `s[:-len(suffix)]` of a text that ends with the suffix.
unfoldable pub strip_suffix : Text → Text → Option Text
unfolding strip_prefix
strip_suffix suffix s = Option.map reverse (strip_prefix (reverse suffix) (reverse s))

-- `s.split(sep, 1)[0]`
unfoldable pub before_first : ℕ → Text → Text
before_first sep [] = []
before_first sep (c ∷ cs) = let rest = before_first sep cs in if c == sep then [] else c ∷ rest

unfoldable pub text_eq : Text → Text → Bool
text_eq [] [] = true
text_eq (c ∷ cs) (d ∷ ds) = let rest = text_eq cs ds in if c == d then rest else false
text_eq _ _ = false
