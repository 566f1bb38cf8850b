-- ===== src/Common/Text.antt =====
-- Python's text operations, character by character. Case is mapped for ASCII letters only: the
-- texts that the program lowers are tags, hosts, header names and country codes.
use Prim.Native.Nat.{ℕ, zero, suc}
use Prim.Native.Char.{Char, code}
use Prim.Native.String.{String, ◌++◌ as ◌<+>◌}
use mathlib.Core.Bool.{Bool, true, false, ◌&&◌, ◌||◌}
use mathlib.Core.Option.{Option, none, some}
use mathlib.Core.List.{List, [], ◌∷◌}
use manifeed.Common.Tests.{leb, ◌==◌, if◌then◌else◌, str_eq}

-- `str.isspace` of one character: the white space of Unicode, and the separators 28 to 31
abbrev pub is_space : ℕ → Bool
is_space c =
    (leb 9 c && leb c 13)
    || (leb 28 c && leb c 32)
    || c == 133
    || c == 160
    || c == 5760
    || (leb 8192 c && leb c 8202)
    || c == 8232
    || c == 8233
    || c == 8239
    || c == 8287
    || c == 12288

abbrev pub is_empty : String → Bool
is_empty String.[] = true
is_empty (String.◌∷◌ _ _) = false

-- `len(s)`, in characters
abbrev pub text_length : String → ℕ
text_length String.[] = 0
text_length (String.◌∷◌ c s) = suc (text_length s)

unfoldable pub lstrip : String → String
lstrip String.[] = String.[]
lstrip (String.◌∷◌ c s) = let rest = lstrip s in if is_space (code c) then rest else String.◌∷◌ c s

-- One character in front of a text that is stripped on its right.
abbrev pub push_stripped : Char → String → String
push_stripped c String.[] = if is_space (code c) then String.[] else String.◌∷◌ c String.[]
push_stripped c (String.◌∷◌ d s) = String.◌∷◌ c (String.◌∷◌ d s)

unfoldable pub rstrip : String → String
rstrip String.[] = String.[]
rstrip (String.◌∷◌ c s) = push_stripped c (rstrip s)

unfoldable pub strip : String → String
unfolding lstrip rstrip
strip s = rstrip (lstrip s)

-- `s.strip() or None`
unfoldable pub clean_text : String → Option String
unfolding strip
clean_text s = let cleaned = strip s in if is_empty cleaned then none else some cleaned

unfoldable pub clean_optional_text : Option String → Option String
unfolding clean_text
clean_optional_text none = none
clean_optional_text (some s) = clean_text s

unfoldable pub starts_with : String → String → Bool
starts_with s String.[] = true
starts_with String.[] (String.◌∷◌ d p) = false
starts_with (String.◌∷◌ c s) (String.◌∷◌ d p) = if code c == code d then starts_with s p else false

-- `s[n:]`
unfoldable pub text_drop : ℕ → String → String
text_drop zero s = s
text_drop (suc n) String.[] = String.[]
text_drop (suc n) (String.◌∷◌ c s) = text_drop n s

-- `s[:n]`
unfoldable pub text_take : ℕ → String → String
text_take zero s = String.[]
text_take (suc n) String.[] = String.[]
text_take (suc n) (String.◌∷◌ c s) = String.◌∷◌ c (text_take n s)

-- `x in seen`
abbrev pub text_mem : String → List String → Bool
text_mem s [] = false
text_mem s (t ∷ ts) = if str_eq s t then true else text_mem s ts

-- `sub in s`
unfoldable pub contains : String → String → Bool
unfolding starts_with
contains String.[] sub = is_empty sub
contains (String.◌∷◌ c s) sub = starts_with (String.◌∷◌ c s) sub || contains s sub

-- the capitals of ASCII, with their small letters
abbrev lower_table : List (ℕ × Char)
lower_table =
    (65, "a")
    ∷ (66, "b")
    ∷ (67, "c")
    ∷ (68, "d")
    ∷ (69, "e")
    ∷ (70, "f")
    ∷ (71, "g")
    ∷ (72, "h")
    ∷ (73, "i")
    ∷ (74, "j")
    ∷ (75, "k")
    ∷ (76, "l")
    ∷ (77, "m")
    ∷ (78, "n")
    ∷ (79, "o")
    ∷ (80, "p")
    ∷ (81, "q")
    ∷ (82, "r")
    ∷ (83, "s")
    ∷ (84, "t")
    ∷ (85, "u")
    ∷ (86, "v")
    ∷ (87, "w")
    ∷ (88, "x")
    ∷ (89, "y")
    ∷ (90, "z")
    ∷ []

abbrev lower_in : List (ℕ × Char) → Char → Char
lower_in [] c = c
lower_in ((capital, small) ∷ rest) c = if code c == capital then small else lower_in rest c

-- `str.lower`
unfoldable pub lower : String → String
lower String.[] = String.[]
lower (String.◌∷◌ c s) = String.◌∷◌ (lower_in lower_table c) (lower s)

-- What stands before the first character that meets the test, and what stands behind it.
unfoldable pub cut : (ℕ → Bool) → String → String × Option String
cut p String.[] = (String.[], none)
cut p (String.◌∷◌ c s) =
    let (before, after) = cut p s in
    if p (code c) then (String.[], some s) else (String.◌∷◌ c before, after)

abbrev pub push_first : Char → List String → List String
push_first c [] = (String.◌∷◌ c String.[]) ∷ []
push_first c (s ∷ ss) = (String.◌∷◌ c s) ∷ ss

-- `s.split(sep)` at a single character
unfoldable pub split : ℕ → String → List String
split sep String.[] = String.[] ∷ []
split sep (String.◌∷◌ c s) =
    let rest = split sep s in if code c == sep then String.[] ∷ rest else push_first c rest

-- `value.replace("Z", "+00:00")`
unfoldable pub replace_z : String → String
replace_z String.[] = String.[]
replace_z (String.◌∷◌ c s) =
    let rest = replace_z s in if code c == 90 then "+00:00" <+> rest else String.◌∷◌ c rest
