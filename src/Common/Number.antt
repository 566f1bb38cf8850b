-- ===== src/Common/Number.antt =====
-- Python's `int(text)`, and the settings that the program reads with it. Digits are ASCII.
use Prim.Native.Nat.{ℕ, ◌/◌, ◌%◌, zero, suc, ◌+◌, ◌-◌, ◌*◌}
use Prim.Native.Char.{code}
use Prim.Native.String.{String, ◌++◌}
use mathlib.Core.Bool.{Bool, true, false, ◌&&◌}
use mathlib.Core.Option.{Option, none, some}
use mathlib.Core.List.{List, [], ◌∷◌}
use manifeed.Common.Tests.{ltb, leb, ◌==◌, if◌then◌else◌}
use manifeed.Common.Text.{strip}

pub data ℤ : Type 0 where
  pos negsuc : ℕ → ℤ

abbrev pub is_digit : ℕ → Bool
is_digit c = leb 48 c && leb c 57

-- Digits, with single underscores between them.
unfoldable pub parse_digits : ℕ → Bool → String → Option ℕ
parse_digits n after_digit String.[] = if after_digit then some n else none
parse_digits n after_digit (String.◌∷◌ c s) =
    let digit = parse_digits (n * 10 + (code c - 48)) true s in
    let underscore = parse_digits n false s in
    if is_digit (code c) then digit else if code c == 95 && after_digit then underscore else none

abbrev pub negate : ℕ → ℤ
negate zero = pos zero
negate (suc n) = negsuc n

abbrev signed : (ℕ → ℤ) → Option ℕ → Option ℤ
signed sign none = none
signed sign (some n) = some (sign n)

unfoldable pub parse_signed : String → Option ℤ
unfolding parse_digits
parse_signed String.[] = none
parse_signed (String.◌∷◌ c s) =
    if code c == 45
    then signed negate (parse_digits 0 false s)
    else if code c == 43
    then signed pos (parse_digits 0 false s)
    else signed pos (parse_digits 0 false (String.◌∷◌ c s))

unfoldable pub parse_int : String → Option ℤ
unfolding parse_signed strip
parse_int s = parse_signed (strip s)

abbrev positive_or : ℕ → Option ℤ → ℕ
positive_or default none = default
positive_or default (some (pos n)) = if n == 0 then default else n
positive_or default (some (negsuc n)) = default

-- A setting that must be a positive number, from the value of its environment variable.
unfoldable pub resolve_positive : ℕ → Option String → ℕ
resolve_positive default none = default
resolve_positive default (some raw) = positive_or default (parse_int raw)

-- one digit
abbrev digit_from : ℕ → List String → String
digit_from n [] = ""
digit_from n (d ∷ ds) = if n == 0 then d else digit_from (n - 1) ds

abbrev digit_text : ℕ → String
digit_text n = digit_from n ("0" ∷ "1" ∷ "2" ∷ "3" ∷ "4" ∷ "5" ∷ "6" ∷ "7" ∷ "8" ∷ "9" ∷ [])

-- `str(n)`. Each step divides by ten, so as much fuel as the number is enough.
abbrev show_from : ℕ → ℕ → String
show_from zero n = digit_text (n % 10)
show_from (suc fuel) n =
    let rest = show_from fuel (n / 10) in
    if ltb n 10 then digit_text n else rest ++ digit_text (n % 10)

unfoldable pub show : ℕ → String
show n = show_from n n
