-- ===== src/Backend/Repository/ChangedFiles.antt =====
-- backend/app/clients/networking/rss/sync_rss_feeds_repository.py, with list_changed_files of
-- backend/app/utils/git_repository_utils.py and list_files_on_dir_with_ext of directory_utils.py: the
-- files of the catalogue that are to be read after a clone or an update.
pub mod Listed
use Prim.Native.Char.{code}
use Prim.Native.String.{◌++◌ as ◌<+>◌}
use manifeed.Common.{
  ℕ, Bool, true, false, not, ◌&&◌, ◌||◌, Option, none, some, List, [], ◌∷◌, ◌++◌, map, filter,
  String, str_eq, strip, split, is_empty, push_first, starts_with, text_drop, text_mem, sorted_set,
  ◌==◌, leb, if◌then◌else◌, Outcome, ok, err, Error,
}
use manifeed.Backend.Repository.Urls.{ends_with}
use manifeed.Backend.Repository.{
  Outside, Checkout, GitAction, cloned, up_to_date, updated, PullOrCloneResult, Git, ◌>>=◌,
  continue, return, raise, run_git_command, pull_or_clone,
}

-- `normalize_file_extension`
unfoldable pub normalize_file_extension : String → Outcome String
unfolding strip starts_with text_drop
normalize_file_extension file_extension =
    let stripped = strip file_extension in
    let bare =
      if starts_with stripped "*."
      then text_drop 1 stripped
      else if starts_with stripped "*"
      then text_drop 1 stripped
      else stripped in
    if is_empty stripped
    then err Error.repository_sync
    else ok (if starts_with bare "." then bare else "." <+> bare)

-- the characters that end a line for `str.splitlines`
abbrev is_line_end : ℕ → Bool
is_line_end c =
    (leb 10 c && leb c 13) || (leb 28 c && leb c 30) || c == 133 || c == 8232 || c == 8233

-- `splitlines`, with an empty line in addition at each CR LF and at the end, which no suffix fits
unfoldable pub split_lines : String → List String
split_lines String.[] = String.[] ∷ []
split_lines (String.◌∷◌ c s) =
    let rest = split_lines s in if is_line_end (code c) then String.[] ∷ rest else push_first c rest

-- `PurePosixPath(path).as_posix()`: no empty part and no single dot
unfoldable pub join_parts : List String → String
join_parts [] = ""
join_parts (p ∷ []) = p
join_parts (p ∷ q ∷ ps) = p <+> "/" <+> join_parts (q ∷ ps)

abbrev is_part : String → Bool
is_part p = not (is_empty p || str_eq p ".")

abbrev root_of : String → String
root_of path =
    if starts_with path "//" && not (starts_with path "///")
    then "//"
    else if starts_with path "/"
    then "/"
    else ""

unfoldable pub as_posix : String → String
unfolding join_parts split starts_with
as_posix path =
    let parts = join_parts (filter is_part (split 47 path)) in
    let whole = root_of path <+> parts in if is_empty whole then "." else whole

-- `while path.startswith("./")`
unfoldable pub drop_dot_slashes : String → String
drop_dot_slashes String.[] = String.[]
drop_dot_slashes (String.◌∷◌ c String.[]) = String.◌∷◌ c String.[]
drop_dot_slashes (String.◌∷◌ c (String.◌∷◌ d s)) =
    let rest = drop_dot_slashes s in
    if code c == 46 && code d == 47 then rest else String.◌∷◌ c (String.◌∷◌ d s)

abbrev pub catalog_dir : String
catalog_dir = "json"

unfoldable pub to_repository_relative_catalog_path : String → String
unfolding as_posix drop_dot_slashes starts_with
to_repository_relative_catalog_path path =
    let normalized = as_posix path in
    let relative = drop_dot_slashes normalized in
    if is_empty normalized || str_eq normalized "." || str_eq normalized catalog_dir
    then catalog_dir
    else if starts_with relative "json/"
    then relative
    else "json/" <+> relative

-- The lines that name files with the extension, once each and sorted.
abbrev pub changed_lines : String → String → List String
changed_lines extension output =
    sorted_set (filter (λ line. ends_with line extension) (map strip (split_lines output)))

unfoldable pub list_changed_files : Outside → String → String → String → String → Git (List String)
unfolding normalize_file_extension sorted_set split_lines ends_with run_git_command
list_changed_files o path old_revision new_revision file_extension log =
    elim (normalize_file_extension file_extension) [
      | err e ↦ (err e, log)
      | ok extension ↦
          continue
            (run_git_command o ("diff" ∷ "--name-only" ∷ old_revision ∷ new_revision ∷ [])
              (some path) log)
            (λ output. return (changed_lines extension output))
    ]

-- The directory of the catalogue on the disk: the parts of its path, and the paths below it that
-- a pattern matches.
pub record Directory : Type 0 where
  pub parts : List String
  pub rglob : String → List String

-- No file below a `.git`.
unfoldable pub list_files_on_dir_with_ext : Directory → String → Outcome (List String)
unfolding normalize_file_extension split
list_files_on_dir_with_ext d file_extension = elim (normalize_file_extension file_extension) [
  | err e ↦ err e
  | ok extension ↦ ok (
      filter (λ path. not (text_mem ".git" (d.parts ++ split 47 path)))
        (d.rglob ("*" <+> extension)))
]

pub record RepositorySync : Type 0 where
  pub action : GitAction
  pub changed_files : List String

abbrev pub is_update : GitAction → Bool
is_update cloned = false
is_update up_to_date = false
is_update updated = true

abbrev pub is_clone : GitAction → Bool
is_clone cloned = true
is_clone up_to_date = false
is_clone updated = false

abbrev lift {ℓ} : {A : Type ℓ} → Outcome A → Git A
lift m log = (m, log)

-- `git diff` between the revisions, which an update has both.
unfoldable pub diff_revisions :
    Outside → Checkout → String → Option String → Option String → Git (List String)
unfolding list_changed_files
diff_revisions o c extension (some previous) (some current) =
    list_changed_files o (c.repository_path <+> "/" <+> catalog_dir) previous current extension
diff_revisions o c extension none _ = raise Error.repository_sync
diff_revisions o c extension (some _) none = raise Error.repository_sync

unfoldable pub changed_files :
    Outside → Checkout → Directory → String → Bool → PullOrCloneResult → Git (List String)
unfolding list_files_on_dir_with_ext diff_revisions
changed_files o c d extension force result =
    if force || is_clone result.action
    then lift (list_files_on_dir_with_ext d extension)
    else if is_update result.action
    then diff_revisions o c extension result.previous_revision result.current_revision
    else return []

unfoldable pub sync_rss_feeds_repository :
    Outside → Checkout → Directory → String → Bool → Git RepositorySync
unfolding pull_or_clone changed_files to_repository_relative_catalog_path
sync_rss_feeds_repository o c d extension force = do
  result ← pull_or_clone o c
  files ← changed_files o c d extension force result
  return (record {
    action = result.action;
    changed_files = map to_repository_relative_catalog_path files;
  })
