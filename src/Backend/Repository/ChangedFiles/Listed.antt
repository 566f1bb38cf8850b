-- ===== src/Backend/Repository/ChangedFiles/Listed.antt =====
-- The files that are listed after an update.
use Prim.Native.Char.{code}
use Prim.Native.String.append
use Prim.Native.String.{◌++◌ as ◌<+>◌}
use manifeed.Common.{
  ◌≡◌, refl, ap, ◌∙◌, ◌⊎◌, inl, inr, Bool, true, false, ◌&&◌, ◌||◌, some, List, [], ◌∷◌, map,
  filter, String, str_eq, ==_refl, strip, starts_with, is_empty, text_mem, IsSortedSet,
  sorted_set-IsSortedSet, mem-sorted_set, any, length, All, arith, if-cases, Outcome, ok, err,
  WhenOk, any-WhenOk,
}
use manifeed.Backend.Repository.Urls.{ends_with}
use manifeed.Backend.Repository.{
  Outside, Checkout, Command, GitAction, up_to_date, PullOrCloneResult, Git, continue,
  pull_or_clone, build_git_command, run_git_command,
}
use manifeed.Backend.Repository.ChangedFiles.{
  normalize_file_extension, split_lines, changed_lines, list_changed_files, as_posix,
  drop_dot_slashes, catalog_dir, to_repository_relative_catalog_path, Directory, RepositorySync,
  is_clone, is_update, changed_files, sync_rss_feeds_repository,
}

mem-lines :
    (f extension : String) (lines : List String)
    → text_mem f (filter (λ line. ends_with line extension) (map strip lines))
      ≡ any (λ line. str_eq f (strip line) && ends_with (strip line) extension) lines
mem-lines f extension [] = refl
mem-lines f extension (l ∷ ls) = ground (arith, mem-lines f extension ls)

-- Where git prints the names of the changed files, those with the wanted extension are listed, once
-- each and in the order of their names, and no others.
pub list_changed_files-Lists :
    (o : Outside) (path old new file_extension extension stdout : String) (log : List Command)
    → normalize_file_extension file_extension ≡ ok extension
    → o.run (length log) (build_git_command o ("diff" ∷ "--name-only" ∷ old ∷ new ∷ []) (some path))
      ≡ some stdout
    → (files : List String) × ((list_changed_files o path old new file_extension log).0 ≡ ok files)
      × IsSortedSet files
      × ((f : String)
          → text_mem f files
            ≡ any
                (λ line. str_eq f (strip line) && ends_with (strip line) extension)
                (split_lines (strip stdout)))
unfolding list_changed_files run_git_command
list_changed_files-Lists o path old new file_extension extension stdout log known printed =
    let lines = split_lines (strip stdout) in
    (
      changed_lines extension (strip stdout),
      rw (known, list_changed_files) (rw printed),
      sorted_set-IsSortedSet (filter (λ line. ends_with line extension) (map strip lines)),
      λ f.
          mem-sorted_set f (filter (λ line. ends_with line extension) (map strip lines))
          ∙ mem-lines f extension lines,
    )

starts_with-append : (p s : String) → starts_with (p <+> s) p ≡ true
unfolding starts_with
starts_with-append String.[] s = refl
starts_with-append (String.◌∷◌ c p) s =
    rw (append.cons c p s) (rw (==_refl (code c)) (starts_with-append p s))

-- The directory of the catalogue itself, or a path below it.
abbrev pub IsCatalogPath : String → Type 0
IsCatalogPath path = (path ≡ catalog_dir) ⊎ (starts_with path "json/" ≡ true)

relative-IsCatalogPath : (path : String) → IsCatalogPath (to_repository_relative_catalog_path path)
unfolding to_repository_relative_catalog_path
relative-IsCatalogPath path =
    if-cases IsCatalogPath
      (is_empty (as_posix path) || str_eq (as_posix path) "." || str_eq (as_posix path) catalog_dir)
      _ _ (λ _. inl refl)
      (λ _.
        if-cases IsCatalogPath (starts_with (drop_dot_slashes (as_posix path)) "json/") _ _
          (λ there. inr there)
          (λ _. inr (starts_with-append "json/" (drop_dot_slashes (as_posix path)))))

All-IsCatalogPath :
    (paths : List String) → All IsCatalogPath (map to_repository_relative_catalog_path paths)
All-IsCatalogPath [] = tt
All-IsCatalogPath (p ∷ ps) = (relative-IsCatalogPath p, All-IsCatalogPath ps)

continue-WhenOk {ℓ κ} :
    {A : Type ℓ} {B : Type κ} (Q : A → Type 0) (P : B → Type 0) (m : Outcome A × List Command)
    (rest : A → List Command → Outcome B × List Command)
    → WhenOk Q m.0
    → ((a : A) (log : List Command) → Q a → WhenOk P (rest a log).0)
    → WhenOk P (continue m rest).0
continue-WhenOk Q P (err e, log) rest h k = tt
continue-WhenOk Q P (ok a, log) rest h k = k a log h

-- What a synchronisation of the repository answers: paths of the catalogue, and none of them where
-- nothing is new and nobody insists.
pub record IsAnswer (force : Bool) (r : RepositorySync) : Type 0 where
  pub paths : All IsCatalogPath r.changed_files
  pub nothing_new : force ≡ false → r.action ≡ up_to_date → r.changed_files ≡ []

vacuous :
    (force : Bool) (action : GitAction)
    → (force ≡ false → action ≡ up_to_date → ⊥)
    → (m : Outcome (List String))
    → WhenOk (λ (files : List String). force ≡ false → action ≡ up_to_date → files ≡ []) m
vacuous force action h (err e) = tt
vacuous force action h (ok files) = λ calm same. absurd (h calm same)

no_files :
    (o : Outside) (c : Checkout) (d : Directory) (extension : String) (force : Bool)
    (result : PullOrCloneResult) (log : List Command)
    → WhenOk
        (λ (files : List String). force ≡ false → result.action ≡ up_to_date → files ≡ [])
        (changed_files o c d extension force result log).0
unfolding changed_files
no_files o c d extension force result log =
    let P = λ (m : Git (List String)).
      WhenOk (λ (files : List String). force ≡ false → result.action ≡ up_to_date → files ≡ [])
        (m log).0 in
    if-cases P (force || is_clone result.action) _ _
      (λ insisted.
        vacuous force result.action (λ calm same. ground (arith, insisted, calm, ap is_clone same))
          _)
      (λ _.
        if-cases P (is_update result.action) _ _
          (λ new. vacuous force result.action (λ calm same. cc (new, ap is_update same)) _)
          (λ _ calm same. refl))

pub sync_repository-IsAnswer :
    (o : Outside) (c : Checkout) (d : Directory) (extension : String) (force : Bool)
    (log : List Command)
    → WhenOk (IsAnswer force) (sync_rss_feeds_repository o c d extension force log).0
unfolding sync_rss_feeds_repository
sync_repository-IsAnswer o c d extension force log =
    continue-WhenOk (λ _. Unit {0}) (IsAnswer force) (pull_or_clone o c log) _ (any-WhenOk _)
      (λ result log₁ _.
        continue-WhenOk
          (λ (files : List String). force ≡ false → result.action ≡ up_to_date → files ≡ [])
          (IsAnswer force) (changed_files o c d extension force result log₁) _
          (no_files o c d extension force result log₁)
          (λ files log₂ h. record {
            paths = All-IsCatalogPath files;
            nothing_new = λ calm same. ap (map to_repository_relative_catalog_path) (h calm same);
          }))
