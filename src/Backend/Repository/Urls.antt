-- ===== src/Backend/Repository/Urls.antt =====
-- `_normalize_repository_url` of backend/app/utils/git_repository_utils.py, with what it uses of
-- `urlparse`. Brackets that do not match, which `urlparse` refuses, and parameters of the last part
-- of a path, behind a semicolon, which it cuts off, are not modelled.
use Prim.Native.Char.{code}
use Prim.Native.String.{◌++◌ as ◌<+>◌}
use manifeed.Common.{
  ℕ, Bool, ◌&&◌, ◌||◌, Option, none, some, String, strip, lower, cut, starts_with, text_drop,
  text_take, text_length, is_empty, str_eq, ◌==◌, leb, ◌-◌, if◌then◌else◌,
}
use manifeed.Backend.Host.{ends_netloc, is_scheme}

-- `lstrip("/")`
unfoldable pub lstrip_slashes : String → String
lstrip_slashes String.[] = String.[]
lstrip_slashes (String.◌∷◌ c s) =
    let rest = lstrip_slashes s in if code c == 47 then rest else String.◌∷◌ c s

-- `rstrip("/")`
unfoldable pub rstrip_slashes : String → String
rstrip_slashes String.[] = String.[]
rstrip_slashes (String.◌∷◌ c s) =
    let rest = rstrip_slashes s in
    if code c == 47 && is_empty rest then String.[] else String.◌∷◌ c rest

-- `s.endswith(suffix)`
unfoldable pub ends_with : String → String → Bool
unfolding text_drop
ends_with s suffix =
    leb (text_length suffix) (text_length s)
    && str_eq (text_drop (text_length s - text_length suffix) s) suffix

unfoldable pub normalize_repository_path : String → String
unfolding lstrip_slashes rstrip_slashes ends_with text_take strip
normalize_repository_path path =
    let normalized = rstrip_slashes (lstrip_slashes (strip path)) in
    if ends_with normalized ".git"
    then text_take (text_length normalized - 4) normalized
    else normalized

-- the character that ends the path of a URL: `?` or `#`
abbrev ends_path : ℕ → Bool
ends_path c = c == 63 || c == 35

-- A network location and what follows it.
unfoldable pub split_location : String → String × String
unfolding cut text_drop
split_location s = let netloc = (cut ends_netloc s).0 in (netloc, text_drop (text_length netloc) s)

-- With a scheme and a network location: the location in small letters, and the path.
abbrev with_location : String → String × String → String
with_location whole (netloc, rest) =
    if is_empty netloc
    then normalize_repository_path whole
    else lower netloc <+> "/" <+> normalize_repository_path (cut ends_path rest).0

-- `urlparse`, on a text that does not begin with `git@`
unfoldable pub normalize_url : String → String
unfolding split_location normalize_repository_path lower starts_with
normalize_url s = elim (cut (λ c. c == 58) s).1 [
  | none ↦ normalize_repository_path s
  | some rest ↦
      if is_scheme (cut (λ c. c == 58) s).0 && starts_with rest "//"
      then with_location s (split_location (text_drop 2 rest))
      else normalize_repository_path s
]

-- `git@host:path`
abbrev scp_url : String → String × Option String → String
scp_url whole (host, none) = normalize_repository_path whole
scp_url whole (host, some path) = lower host <+> "/" <+> normalize_repository_path path

unfoldable pub normalize_repository_url : String → String
unfolding normalize_url strip
normalize_repository_url url =
    let normalized = strip url in
    if starts_with normalized "git@"
    then (let host_and_path = text_drop 4 normalized in
        scp_url host_and_path (cut (λ c. c == 58) host_and_path))
    else normalize_url normalized
