-- ===== src/Backend/CatalogSync/FileNames.antt =====
-- The name of a company from the path of its file: normalize_name_from_filename of
-- backend/app/utils/normalize_utils.py, with what it uses of pathlib.
use Prim.Native.Char.{code}
use manifeed.Common.{
  Bool, ◌||◌, Option, none, some, List, [], ◌∷◌, String, strip, split, is_empty, str_eq, ◌==◌,
  if◌then◌else◌, Outcome, ok, err, Error,
}
use manifeed.Backend.Catalog.{sub_spaces}

-- `Path(path).name`: the last part that is neither empty nor a single dot
unfoldable pub last_part : String → List String → String
last_part found [] = found
last_part found (part ∷ parts) =
    last_part (if is_empty part || str_eq part "." then found else part) parts

-- The text before the last dot, if there is one, and whether the dot ends the name.
unfoldable pub before_last_dot : String → Option (String × Bool)
before_last_dot String.[] = none
before_last_dot (String.◌∷◌ c s) = elim (before_last_dot s) [
  | some (before, at_end) ↦ some (String.◌∷◌ c before, at_end)
  | none ↦ if code c == 46 then some (String.[], is_empty s) else none
]

-- A dot that begins or ends the name starts no suffix.
abbrev stem_of : String → Option (String × Bool) → String
stem_of name none = name
stem_of name (some (before, at_end)) = if is_empty before || at_end then name else before

unfoldable pub stem : String → String
unfolding last_part before_last_dot split
stem path = let name = last_part "" (split 47 path) in stem_of name (before_last_dot name)

-- `replace("_", " ")`
unfoldable pub spaced : String → String
spaced String.[] = String.[]
spaced (String.◌∷◌ c s) =
    let rest = spaced s in if code c == 95 then String.◌∷◌ " " rest else String.◌∷◌ c rest

unfoldable pub normalize_name_from_filename : String → Outcome String
unfolding stem spaced sub_spaces strip
normalize_name_from_filename file_name =
    let name = strip (sub_spaces " " (spaced (stem file_name))) in
    if is_empty name then err Error.value_error else ok name

-- `_extract_company_name`: the error is that of the catalogue
abbrev pub as_parse_error {ℓ} : {A : Type ℓ} → Outcome A → Outcome A
as_parse_error (ok a) = ok a
as_parse_error (err Error.value_error) = err Error.catalog_parse
as_parse_error (err e) = err e

unfoldable pub extract_company_name : String → Outcome String
unfolding normalize_name_from_filename
extract_company_name path = as_parse_error (normalize_name_from_filename path)
