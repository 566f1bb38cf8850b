-- ===== src/Backend/Repository.antt =====
-- backend/app/utils/git_repository_utils.py: the clone or the update of the repository of the
-- catalogue. What git prints and what stands on the disk is given; a session is the list of the
-- commands that were run, the latest one first.
pub mod Urls
pub mod ChangedFiles
use Prim.Native.String.{◌++◌ as ◌<+>◌}
use manifeed.Common.{
  ℕ, Bool, true, false, not, ◌&&◌, ◌||◌, Option, none, some, List, [], ◌∷◌, ◌++◌, String, str_eq,
  length, strip, if◌then◌else◌, Outcome, ok, err, Error,
}
use manifeed.Backend.Repository.Urls.{normalize_repository_url}

abbrev pub Command : Type 0
Command = List String

-- What stands outside: the repository's directory, for each directory its own path and its parents'
-- with whether a `.git` lies there, and what the n-th command prints, unless it fails.
pub record Outside : Type 0 where
  pub path_exists : Bool
  pub is_empty_directory : Bool
  pub has_git : Bool
  pub candidates : String → List (String × Bool)
  pub run : ℕ → Command → Option String

pub record Checkout : Type 0 where
  pub repository_url : String
  pub repository_path : String
  pub branch : String

pub data GitAction : Type 0 where
  cloned up_to_date updated : GitAction

pub record PullOrCloneResult : Type 0 where
  pub action : GitAction
  pub previous_revision : Option String
  pub current_revision : Option String

-- A computation that runs commands.
abbrev pub Git {ℓ} : Type ℓ → Type ℓ
Git A = List Command → Outcome A × List Command

module _ {ℓ κ} {A : Type ℓ} {B : Type κ} where
  abbrev pub continue : Outcome A × List Command → (A → Git B) → Outcome B × List Command
  continue (err e, log) rest = (err e, log)
  continue (ok a, log) rest = rest a log

  infixl 5 ◌>>=◌
  abbrev pub ◌>>=◌ : Git A → (A → Git B) → Git B
  ◌>>=◌ m rest log = continue (m log) rest

abbrev pub return {ℓ} : {A : Type ℓ} → A → Git A
return a log = (ok a, log)

abbrev pub raise {ℓ} : {A : Type ℓ} → Error → Git A
raise e log = (err e, log)

-- The first directory that holds a `.git`, or else the directory itself.
unfoldable pub resolve_git_safe_directory : String → List (String × Bool) → String
resolve_git_safe_directory cwd [] = cwd
resolve_git_safe_directory cwd ((path, has_git) ∷ candidates) =
    let rest = resolve_git_safe_directory cwd candidates in if has_git then path else rest

unfoldable pub build_git_command : Outside → Command → Option String → Command
unfolding resolve_git_safe_directory
build_git_command o command none = "git" ∷ command
build_git_command o command (some cwd) =
    "git"
    ∷ "-c"
    ∷ ("safe.directory=" <+> resolve_git_safe_directory cwd (o.candidates cwd))
    ∷ command

abbrev answer : Option String → Outcome String
answer none = err Error.git_sync
answer (some stdout) = ok (strip stdout)

unfoldable pub run_git_command : Outside → Command → Option String → Git String
unfolding build_git_command strip
run_git_command o command cwd log =
    let full = build_git_command o command cwd in (answer (o.run (length log) full), full ∷ log)

unfoldable pub validate_repository_remote : Outside → Checkout → Git (Unit {0})
unfolding run_git_command
validate_repository_remote o c = do
  current ←
      run_git_command o ("config" ∷ "--get" ∷ "remote.origin.url" ∷ []) (some c.repository_path)
  if not (str_eq (normalize_repository_url current) (normalize_repository_url c.repository_url))
      then raise Error.git_sync
      else if str_eq current c.repository_url
      then return tt
      else (do
        _ ←
            run_git_command o ("remote" ∷ "set-url" ∷ "origin" ∷ c.repository_url ∷ [])
              (some c.repository_path)
        return tt)

-- The part of `pull_or_clone` behind the comparison of the revisions, where they differ.
unfoldable pub pull_branch : Outside → Checkout → String → Git PullOrCloneResult
unfolding run_git_command
pull_branch o c previous = do
  _ ← run_git_command o ("checkout" ∷ c.branch ∷ []) (some c.repository_path)
  _ ← run_git_command o ("pull" ∷ "--ff-only" ∷ "origin" ∷ c.branch ∷ []) (some c.repository_path)
  current ← run_git_command o ("rev-parse" ∷ "HEAD" ∷ []) (some c.repository_path)
  return (record {
    action = updated;
    previous_revision = some previous;
    current_revision = some current;
  })

unfoldable pub clone_repository : Outside → Checkout → Git PullOrCloneResult
unfolding run_git_command
clone_repository o c = do
  _ ←
      run_git_command o
        ("clone" ∷ "--branch" ∷ c.branch ∷ c.repository_url ∷ c.repository_path ∷ []) none
  current ← run_git_command o ("rev-parse" ∷ "HEAD" ∷ []) (some c.repository_path)
  return (record { action = cloned; previous_revision = none; current_revision = some current })

unfoldable pub update_repository : Outside → Checkout → Git PullOrCloneResult
unfolding validate_repository_remote pull_branch run_git_command
update_repository o c = do
  _ ← validate_repository_remote o c
  _ ← run_git_command o ("fetch" ∷ "origin" ∷ c.branch ∷ []) (some c.repository_path)
  previous ← run_git_command o ("rev-parse" ∷ "HEAD" ∷ []) (some c.repository_path)
  remote ← run_git_command o ("rev-parse" ∷ ("origin/" <+> c.branch) ∷ []) (some c.repository_path)
  if str_eq previous remote
      then return (record {
        action = up_to_date;
        previous_revision = some previous;
        current_revision = some remote;
      })
      else pull_branch o c previous

unfoldable pub pull_or_clone : Outside → Checkout → Git PullOrCloneResult
unfolding clone_repository update_repository
pull_or_clone o c =
    if not o.path_exists || o.is_empty_directory
    then clone_repository o c
    else if not o.has_git
    then raise Error.git_sync
    else update_repository o c
