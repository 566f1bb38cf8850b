-- ===== src/Backend/CatalogSync/Atomic.antt =====
-- A synchronisation of the catalogue that fails, or has nothing to do.
use manifeed.Common.{◌≡◌, refl, Bool, true, false, String, List, [], ◌∷◌, Outcome, ok, err, WhenOk}
use manifeed.Db.{Database}
use manifeed.Backend.Repository.{Outside, Checkout, GitAction, up_to_date}
use manifeed.Backend.Repository.ChangedFiles.{Directory, RepositorySync, sync_rss_feeds_repository}
use manifeed.Backend.Repository.ChangedFiles.Listed.{IsAnswer, sync_repository-IsAnswer}
use manifeed.Backend.CatalogSync.Writes.{Session}
use manifeed.Backend.CatalogSync.{
  CatalogFile, commit_sync, sync_changed_files, after_repository, sync_rss_catalog,
}

-- The database behind a synchronisation, where it is the one before.
abbrev pub Unchanged : Bool → Database → Outcome GitAction × Database → Type 0
Unchanged force db (err e, db') = db' ≡ db
Unchanged force db (ok action, db') = force ≡ false → action ≡ up_to_date → db' ≡ db

committed-Unchanged :
    (commits force : Bool) (action : GitAction) (db : Database) (m : Outcome Session)
    → (force ≡ false → action ≡ up_to_date → ⊥)
    → Unchanged force db (commit_sync commits action db m)
committed-Unchanged commits force action db (err e) h = refl
committed-Unchanged true force action db (ok s) h = λ calm same. absurd (h calm same)
committed-Unchanged false force action db (ok s) h = refl

files-Unchanged :
    (repository : String → CatalogFile) (commits force : Bool) (action : GitAction)
    (paths : List String) (db : Database)
    → (force ≡ false → action ≡ up_to_date → paths ≡ [])
    → Unchanged force db (sync_changed_files repository commits action paths db)
unfolding sync_changed_files
files-Unchanged repository commits force action [] db h = λ calm same. refl
files-Unchanged repository commits force action (p ∷ ps) db h =
    committed-Unchanged commits force action db _ (λ calm same. cc (h calm same))

-- Whatever raises, git, a file, the database or the commit: the database is as it was, and so it is
-- where the repository was up to date and the synchronisation was not forced.
pub sync_rss_catalog-Unchanged :
    (o : Outside) (c : Checkout) (d : Directory) (repository : String → CatalogFile)
    (commits force : Bool) (db : Database)
    → Unchanged force db (sync_rss_catalog o c d repository commits force db)
unfolding sync_rss_catalog
sync_rss_catalog-Unchanged o c d repository commits force db =
    go (sync_rss_feeds_repository o c d ".json" force []).0
      (sync_repository-IsAnswer o c d ".json" force [])
  where
    go :
        (m : Outcome RepositorySync)
        → WhenOk (IsAnswer force) m
        → Unchanged force db (after_repository repository commits db m)
    go (err e) h = refl
    go (ok r) h = files-Unchanged repository commits force r.action r.changed_files db h.nothing_new
