-- ===== src/Backend/Host.antt =====
-- `normalize_host` of backend/app/utils/normalize_utils.py, with what it uses of `urlsplit`: a
-- scheme is cut off, and the host is what stands between the last `@` and the port of the network
-- location. Tabs and line breaks inside the text, which `urlsplit` removes, are not modelled, nor
-- is the zone of an IPv6 address, whose case it keeps.
use Prim.Native.Char.{code}
use manifeed.Common.{
  if-cases, RaisesOnly, ok-RaisesOnly, >>=-RaisesOnly, raise_if-RaisesOnly, ℕ, ◌≡◌, refl, Bool,
  true, false, not, ◌&&◌, ◌||◌, Option, none, some, String, ◌==◌, leb, if◌then◌else◌, is_some,
  is_empty, strip, lower, cut, clean_text, contains, starts_with, text_drop, Outcome, ok, Error,
  ◌>>=◌, ◌>>◌, raise_if,
}

-- the character that ends a network location: `/`, `?` or `#`
abbrev pub ends_netloc : ℕ → Bool
ends_netloc c = c == 47 || c == 63 || c == 35

-- `rpartition('@')[2]`: what stands behind the last `@`. Each step passes one `@`, so the fuel, a
-- copy of the text, is enough.
abbrev behind_last_at : String → String → String
behind_last_at String.[] s = s
behind_last_at (String.◌∷◌ _ fuel) s = elim (cut (λ c. c == 64) s).1 [
  | none ↦ s
  | some rest ↦ behind_last_at fuel rest
]

-- The part of `hostinfo` that is the host: inside brackets, or before the port.
abbrev without_port : String → String
without_port s = elim (cut (λ c. c == 91) s).1 [
  | none ↦ (cut (λ c. c == 58) s).0
  | some inside ↦ (cut (λ c. c == 93) inside).0
]

-- `urlsplit(url).hostname`, from what stands behind the `//` of the URL; a bracket without its partner is an error.
unfoldable pub hostname : String → Outcome (Option String)
unfolding lower cut
hostname url =
    let netloc = (cut ends_netloc url).0 in
    let opened = is_some (cut (λ c. c == 91) netloc).1 in
    let closed = is_some (cut (λ c. c == 93) netloc).1 in
    do
      raise_if ((opened && not closed) || (closed && not opened)) Error.value_error
      let host = without_port (behind_last_at netloc netloc)
      ok (if is_empty host then none else some (lower host))

abbrev is_letter : ℕ → Bool
is_letter c = (leb 65 c && leb c 90) || (leb 97 c && leb c 122)

-- a letter, a digit, `+`, `-` or `.`
abbrev is_scheme_code : ℕ → Bool
is_scheme_code c = is_letter c || (leb 48 c && leb c 57) || c == 43 || c == 45 || c == 46

abbrev all_scheme_codes : String → Bool
all_scheme_codes String.[] = true
all_scheme_codes (String.◌∷◌ c s) = is_scheme_code (code c) && all_scheme_codes s

abbrev pub is_scheme : String → Bool
is_scheme String.[] = false
is_scheme (String.◌∷◌ c s) = is_letter (code c) && all_scheme_codes s

-- The text behind its scheme, if it has one.
abbrev behind_scheme : String → String
behind_scheme s =
    let (scheme, after) = cut (λ c. c == 58) s in
    elim after [ none ↦ s | some rest ↦ if is_scheme scheme then rest else s ]

-- The text behind `//`, which stands before a network location.
abbrev behind_slashes : String → String
behind_slashes s = if starts_with s "//" then text_drop 2 s else ""

abbrev clean_hostname : Option String → Option String
clean_hostname none = none
clean_hostname (some name) = clean_text name

-- The text that `urlsplit` reads a network location from.
abbrev location_of : String → String
location_of s = if contains s "://" then behind_slashes (behind_scheme s) else s

unfoldable pub normalize_host : Option String → Outcome (Option String)
unfolding hostname
normalize_host none = ok none
normalize_host (some host) =
    let stripped = strip host in
    if is_empty stripped
    then ok none
    else do name ← hostname (location_of stripped); ok (clean_hostname name)

host_tests :
    (normalize_host (some " HTTPS://user@News.Example.com:8080/rss ")
      ≡ ok (some "news.example.com"))
    × (normalize_host (some "Example.org/path") ≡ ok (some "example.org"))
    × (normalize_host (some "  ") ≡ ok none)
unfolding normalize_host starts_with text_drop contains strip clean_text
host_tests = (refl, refl, refl)

hostname-RaisesOnly : (url : String) → RaisesOnly Error.value_error (hostname url)
unfolding hostname
hostname-RaisesOnly url =
    >>=-RaisesOnly Error.value_error (raise_if _ Error.value_error) _
      (raise_if-RaisesOnly Error.value_error _) (λ _. ok-RaisesOnly Error.value_error _)

-- The only error of `normalize_host` is the one of `urlsplit`.
pub normalize_host-RaisesOnly :
    (host : Option String) → RaisesOnly Error.value_error (normalize_host host)
unfolding normalize_host
normalize_host-RaisesOnly none = ok-RaisesOnly Error.value_error none
normalize_host-RaisesOnly (some host) =
    if-cases (RaisesOnly Error.value_error) (is_empty (strip host)) _ _
      (λ _. ok-RaisesOnly Error.value_error _)
      (λ _.
        >>=-RaisesOnly Error.value_error (hostname (location_of (strip host))) _
          (hostname-RaisesOnly (location_of (strip host))) (λ _. ok-RaisesOnly Error.value_error _))
