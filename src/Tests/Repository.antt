-- ===== src/Tests/Repository.antt =====
-- Runs of the synchronisation of the repository: an update, and a directory of another repository.
use manifeed.Common.{
  ℕ, zero, suc, ◌≡◌, refl, true, false, ◌&&◌, Option, none, some, List, [], ◌∷◌, String, str_eq,
  strip, lower, split, cut, starts_with, text_drop, text_take, IsSortedSet, text_mem, any, ok, err,
  Error,
}
use manifeed.Backend.Repository.Urls.{
  lstrip_slashes, rstrip_slashes, ends_with, normalize_repository_path, split_location,
  normalize_url, normalize_repository_url,
}
use manifeed.Backend.Repository.{
  Outside, Checkout, updated, run_git_command, validate_repository_remote, pull_branch,
  update_repository, pull_or_clone,
}
use manifeed.Backend.Repository.ChangedFiles.{
  normalize_file_extension, split_lines, join_parts, as_posix, drop_dot_slashes,
  to_repository_relative_catalog_path, list_changed_files, diff_revisions, changed_files, Directory,
  sync_rss_feeds_repository,
}
use manifeed.Backend.Repository.ChangedFiles.Listed.{list_changed_files-Lists}
use manifeed.Backend.CatalogSync.{absent, sync_rss_catalog}
use manifeed.Backend.CatalogSync.Atomic.{Unchanged, sync_rss_catalog-Unchanged}
use manifeed.Tests.{catalogue}

-- The forms of one address.
addresses :
    (normalize_repository_url " git@GitHub.com:team/feeds.git" ≡ "github.com/team/feeds")
    × (normalize_repository_url "https://github.com/team/feeds/" ≡ "github.com/team/feeds")
    × (normalize_repository_url "/srv/feeds.git" ≡ "srv/feeds")
unfolding normalize_repository_url normalize_url split_location normalize_repository_path
    lstrip_slashes rstrip_slashes ends_with strip lower cut starts_with text_drop text_take
addresses = (refl, refl, refl)

relative_paths :
    (to_repository_relative_catalog_path "./json//a.json" ≡ "json/a.json")
    × (to_repository_relative_catalog_path "a.json" ≡ "json/a.json")
    × (to_repository_relative_catalog_path "." ≡ "json")
unfolding to_repository_relative_catalog_path as_posix join_parts drop_dot_slashes split starts_with
relative_paths = (refl, refl, refl)

abbrev checkout : Checkout
checkout = record {
  repository_url = "https://github.com/team/feeds";
  repository_path = "/tmp/feeds";
  branch = "main";
}

abbrev nth : List String → ℕ → Option String
nth [] n = none
nth (s ∷ ss) zero = some s
nth (s ∷ ss) (suc n) = nth ss n

abbrev outside : List String → Outside
outside printed = record {
  path_exists = true;
  is_empty_directory = false;
  has_git = true;
  candidates = λ path. (path, false) ∷ ("/tmp/feeds", true) ∷ [];
  run = λ n _. nth printed n;
}

-- what git prints in an update that changes three files, one of them no part of the catalogue
abbrev update : Outside
update = outside (
    "https://github.com/team/feeds" ∷ "" ∷ "aaa" ∷ "bbb" ∷ "" ∷ "" ∷ "bbb"
    ∷ "json/B.json\njson/A.json\nREADME.md\n" ∷ [])

abbrev directory : Directory
directory = record { parts = "tmp" ∷ "feeds" ∷ "json" ∷ []; rglob = λ _. [] }

changed_in_update :
    (sync_rss_feeds_repository update checkout directory ".json" false []).0
    ≡ ok (record { action = updated; changed_files = "json/A.json" ∷ "json/B.json" ∷ [] })
unfolding sync_rss_feeds_repository pull_or_clone update_repository validate_repository_remote
    pull_branch changed_files diff_revisions list_changed_files run_git_command
    normalize_repository_url
changed_in_update = refl

-- A directory of another repository: the synchronisation fails at the URL of its remote.
refused_remote :
    (pull_or_clone (outside ("https://github.com/other/feeds" ∷ [])) checkout []).0
    ≡ err Error.git_sync
unfolding pull_or_clone update_repository validate_repository_remote run_git_command
    normalize_repository_url
refused_remote = refl

list_changed_files-Lists_example :
    (files : List String) × ((list_changed_files
        (outside ("b.json\na.json" ∷ []))
        "/tmp/feeds/json"
        "aaa"
        "bbb"
        ".json"
        []).0
      ≡ ok files)
    × IsSortedSet files
    × ((f : String)
        → text_mem f files
          ≡ any
              (λ line. str_eq f (strip line) && ends_with (strip line) ".json")
              (split_lines (strip "b.json\na.json")))
list_changed_files-Lists_example =
    list_changed_files-Lists (outside ("b.json\na.json" ∷ [])) "/tmp/feeds/json" "aaa" "bbb" ".json"
      ".json" "b.json\na.json" [] (unfold normalize_file_extension in refl) refl

sync_rss_catalog-Unchanged_example :
    Unchanged false catalogue
      (sync_rss_catalog update checkout directory (λ _. absent) true false catalogue)
sync_rss_catalog-Unchanged_example =
    sync_rss_catalog-Unchanged update checkout directory (λ _. absent) true false catalogue
