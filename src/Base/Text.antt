-- ===== src/Base/Text.antt =====
-- String operations of JavaScript that the source uses, over the characters of a text.
pub mod Decimal
pub mod Occurrence
use Prim.Native.Nat.{ℕ, zero, suc, ◌/◌, ◌%◌}
use Prim.Native.Char.{Char, code}
use Prim.Native.String
use Prim.Native.String.{String}
use mathlib.Core.Bool.{Bool, true, false, not, ◌&&◌, ◌||◌}
use text.Mathlib.Text.{starts_with}
use guardian_os_ai.Base.Tests.{◌==◌, ltb, leb, if◌then◌else◌}

infixr 65 ◌^^◌
-- Concatenation, as in a template literal.
abbrev pub ◌^^◌ : String → String → String
s ^^ t = String.◌++◌ s t

-- A string is falsy when it is empty.
abbrev pub truthy : String → Bool
truthy String.[] = false
truthy (String.◌∷◌ c s) = true

digit : ℕ → String
digit n =
    if n == 0
    then "0"
    else if n == 1
    then "1"
    else if n == 2
    then "2"
    else if n == 3
    then "3"
    else if n == 4
    then "4"
    else if n == 5
    then "5"
    else if n == 6
    then "6"
    else if n == 7
    then "7"
    else if n == 8
    then "8"
    else "9"

-- Fuel `n + 1` serves for the number `n`, which loses a digit each round.
decimal_from : ℕ → ℕ → String
decimal_from zero n = ""
decimal_from (suc fuel) n =
    let more = decimal_from fuel (n / 10) in if ltb n 10 then digit n else more ^^ digit (n % 10)

-- `String(n)` of a whole number.
unfoldable pub decimal : ℕ → String
unfolding decimal_from digit
decimal n = decimal_from (suc n) n

-- `text.includes(part)`
unfoldable pub includes : String → String → Bool
includes String.[] part = starts_with String.[] part
includes (String.◌∷◌ c s) part = starts_with (String.◌∷◌ c s) part || includes s part

-- The white space and line terminators that `trim` removes.
is_space : Char → Bool
is_space c =
    let n = code c in
    (leb 9 n && leb n 13)
    || n == 32
    || n == 160
    || n == 5760
    || (leb 8192 n && leb n 8202)
    || n == 8232
    || n == 8233
    || n == 8239
    || n == 8287
    || n == 12288
    || n == 65279

trim_start : String → String
trim_start String.[] = ""
trim_start (String.◌∷◌ c s) = let rest = trim_start s in if is_space c then rest else String.◌∷◌ c s

-- Drops the white space at the end: a character stays if something after it stays.
trim_end : String → String
trim_end String.[] = ""
trim_end (String.◌∷◌ c s) =
    let rest = trim_end s in if is_space c && not (truthy rest) then "" else String.◌∷◌ c rest

unfoldable pub trim : String → String
unfolding trim_start trim_end is_space
trim s = trim_end (trim_start s)

-- The text has no character of the code.
abbrev pub lacks : ℕ → String → Bool
lacks c String.[] = true
lacks c (String.◌∷◌ d s) = not (code d == c) && lacks c s
