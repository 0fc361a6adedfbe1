-- ===== src/Prelude/Text.antt =====
-- Texts as lists of code points, and the Python string functions that the program calls.
use Prim.Native.Char.{code}
use Prim.Native.Nat.{suc, zero, ℕ, ◌%◌, ◌*◌, ◌+◌, ◌-◌, ◌/◌}
use Prim.Native.String.{String, compare as compare_text}
use mathlib.Core.Bool.{Bool, false, true, ◌&&◌, ◌||◌}
use mathlib.Core.List.{List, [], reverse, ◌∷◌}
use mathlib.Core.Option.{Option, none, some}
use mathlib.Core.Path.{refl, ◌≡◌}
use re_remote_dev.Prelude.Int.{neg, pos, ℤ}
use re_remote_dev.Prelude.Lists.{all, length}
use re_remote_dev.Prelude.Tests.{eqb, if◌then◌else◌, leb, ltb}
use text.Mathlib.Text.{is_lt, ◌==◌}
pub use Prim.Native.String.{◌++◌ as ◌<>◌}
use mathlib.Core.Option

abbrev pub codes : String → List ℕ
codes String.[] = []
codes (String.◌∷◌ c s) = code c ∷ codes s

-- x in xs
abbrev pub mem : String → List String → Bool
mem x [] = false
mem x (y ∷ ys) = y == x || mem x ys

-- s.startswith(p), on code points
abbrev pub has_prefix : List ℕ → List ℕ → Bool
has_prefix [] cs = true
has_prefix (p ∷ ps) [] = false
has_prefix (p ∷ ps) (c ∷ cs) = eqb p c && has_prefix ps cs

-- len(s)
abbrev pub len : String → ℕ
len s = length (codes s)

-- The white space of str.strip.
abbrev pub is_space : ℕ → Bool
is_space c =
    (leb 9 c && leb c 13)
    || (leb 28 c && leb c 32)
    || eqb c 133
    || eqb c 160
    || eqb c 5760
    || (leb 8192 c && leb c 8202)
    || eqb c 8232
    || eqb c 8233
    || eqb c 8239
    || eqb c 8287
    || eqb c 12288

-- not s.strip()
abbrev pub is_blank : String → Bool
is_blank s = all is_space (codes s)

-- not s
abbrev pub is_empty : String → Bool
is_empty String.[] = true
is_empty (String.◌∷◌ c s) = false

-- s[:n]
unfoldable pub take_text : ℕ → String → String
take_text zero s = String.[]
take_text (suc n) String.[] = String.[]
take_text (suc n) (String.◌∷◌ c s) = String.◌∷◌ c (take_text n s)

abbrev digit : ℕ → String
digit d =
    if eqb d 0
    then "0"
    else if eqb d 1
    then "1"
    else if eqb d 2
    then "2"
    else if eqb d 3
    then "3"
    else if eqb d 4
    then "4"
    else if eqb d 5
    then "5"
    else if eqb d 6
    then "6"
    else if eqb d 7
    then "7"
    else if eqb d 8
    then "8"
    else "9"

-- The decimal digits of a number. A number has fewer than `suc n` digits.
decimal_fuel : ℕ → ℕ → String
decimal_fuel zero n = ""
decimal_fuel (suc f) n =
    let front = decimal_fuel f (n / 10) in if ltb n 10 then digit n else front <> digit (n % 10)

unfoldable pub decimal : ℕ → String
unfolding decimal_fuel
decimal n = decimal_fuel (suc n) n

drop_spaces : List ℕ → List ℕ
drop_spaces [] = []
drop_spaces (c ∷ cs) = let rest = drop_spaces cs in if is_space c then rest else c ∷ cs

-- s.strip(), on code points
unfoldable pub strip : List ℕ → List ℕ
unfolding drop_spaces
strip cs = reverse (drop_spaces (reverse (drop_spaces cs)))

-- The zeros of the scripts that have decimal digits (Unicode 14.0.0); the other nine digits follow each.
decimal_zeros : List ℕ
decimal_zeros =
    48 ∷ 1632 ∷ 1776 ∷ 1984 ∷ 2406 ∷ 2534 ∷ 2662 ∷ 2790 ∷ 2918 ∷ 3046 ∷ 3174 ∷ 3302 ∷ 3430 ∷ 3558
    ∷ 3664 ∷ 3792 ∷ 3872 ∷ 4160 ∷ 4240 ∷ 6112 ∷ 6160 ∷ 6470 ∷ 6608 ∷ 6784 ∷ 6800 ∷ 6992 ∷ 7088
    ∷ 7232 ∷ 7248 ∷ 42528 ∷ 43216 ∷ 43264 ∷ 43472 ∷ 43504 ∷ 43600 ∷ 44016 ∷ 65296 ∷ 66720 ∷ 68912
    ∷ 69734 ∷ 69872 ∷ 69942 ∷ 70096 ∷ 70384 ∷ 70736 ∷ 70864 ∷ 71248 ∷ 71360 ∷ 71472 ∷ 71904 ∷ 72016
    ∷ 72784 ∷ 73040 ∷ 73120 ∷ 92768 ∷ 92864 ∷ 93008 ∷ 120782 ∷ 120792 ∷ 120802 ∷ 120812 ∷ 120822
    ∷ 123200 ∷ 123632 ∷ 125264 ∷ 130032 ∷ []

-- The value of a decimal digit.
digit_of : List ℕ → ℕ → Option ℕ
digit_of [] c = none
digit_of (z ∷ zs) c =
    let rest = digit_of zs c in if leb z c && leb c (z + 9) then some (c - z) else rest

-- The digits of a number, with single underscores between them; `prev` says that a digit stands before.
digits : ℕ → Bool → List ℕ → Option ℕ
unfolding digit_of decimal_zeros
digits acc prev [] = if prev then some acc else none
digits acc prev (c ∷ cs) =
    let read_on = λ (d : ℕ). digits (acc * 10 + d) true cs in
    let gap = digits acc false cs in
    elim (digit_of decimal_zeros c) [
      | some d ↦ read_on d
      | none ↦ if eqb c b'_' && prev then gap else none
    ]

signed : List ℕ → Option ℤ
unfolding digits
signed [] = none
signed (c ∷ cs) =
    if eqb c b'-'
    then Option.map neg (digits 0 false cs)
    else if eqb c b'+'
    then Option.map pos (digits 0 false cs)
    else Option.map pos (digits 0 false (c ∷ cs))

-- int(s) of a text; `none` is a ValueError.
unfoldable pub int_of_text : String → Option ℤ
unfolding signed strip
int_of_text s = signed (strip (codes s))

int_of_text_accepts : int_of_text " 8_0 " ≡ some (pos 80)
unfolding int_of_text
int_of_text_accepts = refl

int_of_text_wide : int_of_text "１２" ≡ some (pos 12)
unfolding int_of_text
int_of_text_wide = refl

int_of_text_rejects : int_of_text "8__0" ≡ none
unfolding int_of_text
int_of_text_rejects = refl

decimal_digits : decimal 4227 ≡ "4227"
unfolding decimal
decimal_digits = refl

-- a < b on texts, by code points
abbrev pub text_lt : String → String → Bool
text_lt a b = is_lt (compare_text a b)
