-- ===== src/Rollback/Ordered.antt =====
-- scripts/patchhub/rollback_preflight.py: the sort of the jobs, from the newest on.
use patchhub.Prelude.{Bool, List, [], arith, leb, refl, true, ℕ, ◌&&◌, ◌∷◌, ◌≡◌, ◌≤◌}
use patchhub.Rollback.{DatedJob}
use patchhub.Rollback.Later.{insert_newest, newest_first}

-- No job is newer than the moment, and each job is at least as new as those after it.
unfoldable pub all_until : ℕ → List DatedJob → Bool
all_until n [] = true
all_until n (job ∷ jobs) = leb job.created_unix_ms n && all_until n jobs

unfoldable pub is_newest_first : List DatedJob → Bool
unfolding all_until
is_newest_first [] = true
is_newest_first (job ∷ jobs) = all_until job.created_unix_ms jobs && is_newest_first jobs

pub all_until_later :
    (m n : ℕ) (jobs : List DatedJob) → m ≤ n → all_until m jobs ≡ true → all_until n jobs ≡ true
unfolding all_until
all_until_later m n [] le h = refl
all_until_later m n (job ∷ jobs) le h = ground (arith, all_until_later m n jobs le, h)

all_until-insert_newest :
    (n : ℕ) (job : DatedJob) (jobs : List DatedJob)
    → all_until n (insert_newest job jobs) ≡ (leb job.created_unix_ms n && all_until n jobs)
unfolding all_until insert_newest
all_until-insert_newest n job [] = refl
all_until-insert_newest n job (next ∷ rest) = ground (arith, all_until-insert_newest n job rest)

is_newest_first-insert_newest :
    (job : DatedJob) (jobs : List DatedJob)
    → is_newest_first jobs ≡ true
    → is_newest_first (insert_newest job jobs) ≡ true
unfolding is_newest_first insert_newest all_until
is_newest_first-insert_newest job [] h = refl
is_newest_first-insert_newest job (next ∷ rest) h = ground (
  arith,
  h,
  is_newest_first-insert_newest job rest,
  all_until-insert_newest next.created_unix_ms job rest,
  all_until_later next.created_unix_ms job.created_unix_ms rest,
)

pub is_newest_first-newest_first :
    (jobs : List DatedJob) → is_newest_first (newest_first jobs) ≡ true
unfolding newest_first is_newest_first
is_newest_first-newest_first [] = refl
is_newest_first-newest_first (job ∷ jobs) =
    is_newest_first-insert_newest job (newest_first jobs) (is_newest_first-newest_first jobs)
