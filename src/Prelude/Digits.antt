-- ===== src/Prelude/Digits.antt =====
-- `strconv.Atoi` and the test for decimal digits, on texts.
use Prim.Native.Nat.{ℕ, zero, suc, ◌+◌, ◌*◌, ◌-◌, ◌^◌, min}
use Prim.Native.Char.{Char, code}
use Prim.Native.String.{String}
use mathlib.Core.Bool.{Bool, true, false, ◌&&◌, ◌||◌}
use text.Mathlib.Text.{◌==◌}
use mathlib.Core.Option.{Option, none, some}
use perplexity_proxy_go.Prelude.Int.{ℤ, pos, negsuc}
use perplexity_proxy_go.Prelude.Tests.{leb, ltb, eqb, if◌then◌else◌}

abbrev is_digit : Char → Bool
is_digit c = leb b'0' (code c) && leb (code c) b'9'

all_digits : String → Bool
all_digits String.[] = true
all_digits (String.◌∷◌ c s) = is_digit c && all_digits s

-- `isDigits` of internal/transport/jar.go
unfoldable pub is_digits : String → Bool
unfolding all_digits
is_digits s = if s == "" then false else all_digits s

number_from : ℕ → String → ℕ
number_from n String.[] = n
number_from n (String.◌∷◌ c s) = number_from (n * 10 + (code c - b'0')) s

-- `n, _ := strconv.Atoi(s)` where `s` is digits: out of range it is the largest int
unfoldable pub atoi : String → ℕ
unfolding number_from
atoi s = min (number_from 0 s) (2 ^ 63 - 1)

abbrev is_sign : Char → Bool
is_sign c = eqb (code c) b'+' || eqb (code c) b'-'

-- Whether `strconv.Atoi` succeeds on a text of at most 18 characters: digits, behind a sign or not.
unfoldable pub is_int : String → Bool
unfolding is_digits
is_int String.[] = false
is_int (String.◌∷◌ c s) = if is_sign c then is_digits s else is_digits (String.◌∷◌ c s)

-- the negative of a number
abbrev negated : ℕ → ℤ
negated zero = pos 0
negated (suc n) = negsuc n

-- An integer of JSON in the range of a 64-bit int; JSON has no plus sign.
unfoldable pub parse_int : String → Option ℤ
unfolding is_digits number_from
parse_int String.[] = none
parse_int (String.◌∷◌ c s) =
    if eqb (code c) b'-'
    then (if is_digits s && leb (number_from 0 s) (2 ^ 63)
        then some (negated (number_from 0 s))
        else none)
    else if is_digits (String.◌∷◌ c s) && ltb (number_from 0 (String.◌∷◌ c s)) (2 ^ 63)
    then some (pos (number_from 0 (String.◌∷◌ c s)))
    else none
