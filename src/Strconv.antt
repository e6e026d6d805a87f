-- ===== src/Strconv.antt =====
-- What the program uses of Go's package `strconv`.
use Prim.Native.Char.{code}
use Prim.Native.String.{String, [], ◌∷◌}
use mathlib.Core.List.{[], ◌∷◌}
use cdevents_otel_bridge.Prelude.{
  ℕ, zero, suc, ◌+◌, ◌-◌, ◌*◌, ◌/◌, ◌%◌, ◌^◌, Bool, true, false, ◌<>◌, ◌||◌, Option, none, some,
  is_empty, ltb, eqb, if◌then◌else◌,
}
use cdevents_otel_bridge.Prelude.Int.{ℤ, pos, negsuc}
use cdevents_otel_bridge.Text.{is_digit, one_of}
use cdevents_otel_bridge.Errors.{Error, plain}

unfoldable pub digits : ℕ → String → Option ℕ
digits n [] = some n
digits n (c ∷ s) =
    let rest = digits (n * 10 + (code c - b'0')) s in if is_digit (code c) then rest else none

-- at least one digit
unfoldable pub number : String → Option ℕ
unfolding digits
number s = if is_empty s then none else digits 0 s

abbrev pub max_int : ℕ
max_int = 2 ^ 63 - 1

abbrev pub positive : Option ℕ → Option ℤ
positive none = none
positive (some n) = if ltb max_int n then none else some (pos n)

abbrev pub negate : ℕ → ℤ
negate zero = pos 0
negate (suc n) = negsuc n

abbrev pub negative : Option ℕ → Option ℤ
negative none = none
negative (some n) = if ltb (max_int + 1) n then none else some (negate n)

-- strconv.Atoi, `none` where it returns an error
unfoldable pub atoi : String → Option ℤ
unfolding number
atoi [] = none
atoi (c ∷ s) =
    if eqb (code c) b'+'
    then positive (number s)
    else if eqb (code c) b'-'
    then negative (number s)
    else positive (number (c ∷ s))

-- strconv.ParseBool, `none` where it returns an error
unfoldable pub parse_bool : String → Option Bool
unfolding one_of
parse_bool s =
    if one_of ("1" ∷ "t" ∷ "T" ∷ "TRUE" ∷ "true" ∷ "True" ∷ []) s
    then some true
    else if one_of ("0" ∷ "f" ∷ "F" ∷ "FALSE" ∷ "false" ∷ "False" ∷ []) s
    then some false
    else none

-- The digit of a number below ten.
abbrev digit : ℕ → String
digit n =
    if eqb n 0
    then "0"
    else if eqb n 1
    then "1"
    else if eqb n 2
    then "2"
    else if eqb n 3
    then "3"
    else if eqb n 4
    then "4"
    else if eqb n 5
    then "5"
    else if eqb n 6
    then "6"
    else if eqb n 7
    then "7"
    else if eqb n 8
    then "8"
    else "9"

-- The decimal digits of a number of at most `fuel` digits and one.
unfoldable pub decimal_of : ℕ → ℕ → String
decimal_of zero n = digit n
decimal_of (suc fuel) n =
    let rest = decimal_of fuel (n / 10) in if ltb n 10 then digit n else rest <> digit (n % 10)

-- `%d` of an `int`: its 64 bits are at most 19 digits
unfoldable pub decimal : ℤ → String
unfolding decimal_of
decimal (pos n) = decimal_of 20 n
decimal (negsuc n) = "-" <> decimal_of 20 (suc n)

-- Whether a text has the syntax of an integer.
abbrev is_some : Option ℕ → Bool
is_some none = false
is_some (some n) = true

unfoldable pub is_number : String → Bool
unfolding number
is_number [] = false
is_number (c ∷ s) =
    if eqb (code c) b'+' || eqb (code c) b'-' then is_some (number s) else is_some (number (c ∷ s))

-- The errors of `Atoi` and `ParseBool`, which `quote` the text.
module _ (quote : String → String) where
  abbrev pub atoi_error : String → Error
  atoi_error s = plain (
      "strconv.Atoi: parsing "
      <> quote s
      <> ": "
      <> (if is_number s then "value out of range" else "invalid syntax"))

  abbrev pub parse_bool_error : String → Error
  parse_bool_error s = plain ("strconv.ParseBool: parsing " <> quote s <> ": invalid syntax")
