-- ===== src/IssueAlloc.antt =====
-- scripts/patchhub/issue_alloc.py: the next issue id. The ids that the files match, the rows of the
-- job database and the legacy `job.json` texts are arguments. Ids are natural numbers.

use patchhub.Answers.{Answers, is_ok}
use patchhub.Prelude.{
  Bool, Bool-cases, List, Option, String, [], arith, if_keeps, if◌then◌else◌, inl, inr, leb, ltb,
  none, refl, some, true, ℕ, ◌&&◌, ◌++◌, ◌+◌, ◌∷◌, ◌≡◌, ◌≤◌,
}
use patchhub.Prelude.Text.{digits_value, is_digits, strip}
use patchhub.CommandLine.{Result, err, ok}

abbrev pub id_list : Option ℕ → List ℕ
id_list none = []
id_list (some n) = n ∷ []

-- `find_existing_issue_ids`, with the number that the pattern matches in a path.
unfoldable pub find_existing_issue_ids : (String → Option ℕ) → List String → List ℕ
find_existing_issue_ids match_id [] = []
find_existing_issue_ids match_id (item ∷ items) =
    id_list (match_id item) ++ find_existing_issue_ids match_id items

-- `_max_issue_id_from_web_jobs_db`, of the maximum that the database gives.
unfoldable pub max_issue_id_from_web_jobs_db : Option ℕ → Option ℕ
max_issue_id_from_web_jobs_db none = none
max_issue_id_from_web_jobs_db (some value) = if ltb 0 value then some value else none

-- `_max_issue_id_from_legacy_jobs`
abbrev pub max_with : ℕ → Option ℕ → Option ℕ
max_with value none = some value
max_with value (some most) = some (if ltb most value then value else most)

unfoldable pub legacy_loop : List String → Option ℕ → Option ℕ
unfolding is_digits digits_value strip
legacy_loop [] max_issue = max_issue
legacy_loop (text ∷ texts) max_issue =
    let value = digits_value 0 (strip text) in
    legacy_loop texts
      (if is_digits (strip text) && ltb 0 value then max_with value max_issue else max_issue)

unfoldable pub max_issue_id_from_legacy_jobs : List String → Option ℕ
unfolding legacy_loop
max_issue_id_from_legacy_jobs texts = legacy_loop texts none

-- `allocate_next_issue_id`
unfoldable pub max_of : ℕ → List ℕ → ℕ
max_of most [] = most
max_of most (n ∷ ns) = max_of (if ltb most n then n else most) ns

abbrev pub next_after : List ℕ → ℕ → ℕ
next_after [] allocation_start = allocation_start
next_after (n ∷ ns) allocation_start = max_of n ns + 1

abbrev pub at_most : ℕ → ℕ → Result ℕ
at_most allocation_max cur =
    if ltb allocation_max cur then err "Issue allocation exceeded allocation_max" else ok cur

abbrev pub max_list : List ℕ → List ℕ
max_list [] = []
max_list (n ∷ ns) = max_of n ns ∷ []

unfoldable pub allocate_next_issue_id : List ℕ → Option ℕ → Option ℕ → ℕ → ℕ → Result ℕ
unfolding max_of
allocate_next_issue_id existing persisted_db persisted_legacy allocation_start allocation_max =
    let maxima = max_list existing ++ (id_list persisted_db ++ id_list persisted_legacy) in
    let cur = next_after maxima allocation_start in
    at_most allocation_max (if ltb cur allocation_start then allocation_start else cur)

-- Every id is below the number.
abbrev pub all_below : ℕ → List ℕ → Bool
all_below n [] = true
all_below n (id ∷ ids) = ltb id n && all_below n ids

abbrev pub known_ids : List ℕ → Option ℕ → Option ℕ → List ℕ
known_ids existing persisted_db persisted_legacy =
    existing ++ (id_list persisted_db ++ id_list persisted_legacy)

all_below-append :
    (n : ℕ) (xs ys : List ℕ) → all_below n (xs ++ ys) ≡ (all_below n xs && all_below n ys)
all_below-append n [] ys = refl
all_below-append n (x ∷ xs) ys = ground (arith, all_below-append n xs ys)

all_below-max_of :
    (k most : ℕ) (ns : List ℕ) → ltb (max_of most ns) k ≡ (ltb most k && all_below k ns)
unfolding max_of
all_below-max_of k most [] = ground arith
all_below-max_of k most (n ∷ ns) =
    ground (arith, all_below-max_of k (if ltb most n then n else most) ns)

all_below-max_list : (k : ℕ) (ns : List ℕ) → all_below k (max_list ns) ≡ all_below k ns
all_below-max_list k [] = refl
all_below-max_list k (n ∷ ns) = ground (arith, all_below-max_of k n ns)

-- The next number is the least one that is above all.
all_below-next_after :
    (k : ℕ) (ns : List ℕ) (allocation_start : ℕ)
    → allocation_start ≤ k
    → (leb (next_after ns allocation_start) k ≡ all_below k ns)
all_below-next_after k [] s h = ground arith
all_below-next_after k (n ∷ ns) s h = ground (arith, all_below-max_of k n ns)

abbrev maxima_of : List ℕ → Option ℕ → Option ℕ → List ℕ
maxima_of existing db legacy = max_list existing ++ (id_list db ++ id_list legacy)

all_below-maxima_of :
    (k : ℕ) (existing : List ℕ) (db legacy : Option ℕ)
    → all_below k (maxima_of existing db legacy) ≡ all_below k (known_ids existing db legacy)
all_below-maxima_of k existing db legacy = ground (
  arith,
  all_below-append k (max_list existing) (id_list db ++ id_list legacy),
  all_below-append k existing (id_list db ++ id_list legacy),
  all_below-max_list k existing,
)

abbrev pub IsNext : ℕ → ℕ → List ℕ → ℕ → ℕ → Type 0
IsNext allocation_start allocation_max ids k n =
    (allocation_start ≤ n) × (n ≤ allocation_max) × (leb n k ≡ all_below k ids)

-- The id that is given is the least number from the start on that is above every known id, and it is
-- within the maximum: a number from the start on is at least the id exactly when every known id is
-- below it.
pub allocate_next_issue_id-IsNext :
    (existing : List ℕ) (db legacy : Option ℕ) (allocation_start allocation_max k : ℕ)
    → allocation_start ≤ k
    → Answers
        (IsNext allocation_start allocation_max (known_ids existing db legacy) k)
        (allocate_next_issue_id existing db legacy allocation_start allocation_max)
unfolding allocate_next_issue_id
allocate_next_issue_id-IsNext existing db legacy allocation_start allocation_max k h =
    let maxima = maxima_of existing db legacy in
    let cur = next_after maxima allocation_start in
    let n = if ltb cur allocation_start then allocation_start else cur in
    if_keeps
      (λ (r : Result ℕ).
        Answers (IsNext allocation_start allocation_max (known_ids existing db legacy) k) r)
      (ltb allocation_max n) (err "Issue allocation exceeded allocation_max") (ok n) (λ over. tt)
      (λ within. (
        ground arith,
        ground (arith, within),
        ground (
          arith,
          all_below-next_after k maxima allocation_start h,
          all_below-maxima_of k existing db legacy,
        ),
      ))

-- There is an id to give exactly when the start is within the maximum and every known id is below the
-- maximum.
pub is_ok-allocate_next_issue_id :
    (existing : List ℕ) (db legacy : Option ℕ) (allocation_start allocation_max : ℕ)
    → is_ok (allocate_next_issue_id existing db legacy allocation_start allocation_max) ≡ (
        leb allocation_start allocation_max
        && all_below allocation_max (known_ids existing db legacy))
unfolding allocate_next_issue_id
is_ok-allocate_next_issue_id existing db legacy allocation_start allocation_max =
    elim (Bool-cases (leb allocation_start allocation_max)) [
      | inl within ↦ ground (
        arith,
        all_below-next_after allocation_max (maxima_of existing db legacy) allocation_start
            (ground (arith, within)),
        all_below-maxima_of allocation_max existing db legacy,
      )
      | inr beyond ↦ ground (arith, beyond)
    ]
