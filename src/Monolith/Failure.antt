-- ===== src/Monolith/Failure.antt =====
-- scripts/am_patch/monolith_gate.py: when the gate ends with an error.
use patchhub.Prelude.{Bool, List, String, [], false, leb, length, not, true, ◌&&◌, ◌||◌, ◌∷◌}
use patchhub.CommandLine.{Result, err, ok}
use patchhub.Gates.Protection.{is_none}
use patchhub.Monolith.Gate.{SourceTree, is_present}

abbrev pub is_error {ℓ} : {A : Type ℓ} → Result A → Bool
is_error (err message) = true
is_error (ok a) = false

-- Every prefix has a name and a dynamic entry.
abbrev pub is_enough : List String → List String → List String → Bool
is_enough prefixes names dynamics =
    leb (length prefixes) (length names) && leb (length prefixes) (length dynamics)

-- A path of the workspace that is there and can be read, and can be read in the repository where it
-- is there.
abbrev pub is_readable : SourceTree → SourceTree → String → Bool
is_readable cwd repo rp =
    is_present (cwd.read_tree rp)
    && is_none (cwd.read_error rp)
    && (not (is_present (repo.read_tree rp)) || is_none (repo.read_error rp))

abbrev pub all_readable : SourceTree → SourceTree → List String → Bool
all_readable cwd repo [] = true
all_readable cwd repo (rp ∷ rps) = is_readable cwd repo rp && all_readable cwd repo rps

-- The candidates of a scan that answers.
abbrev pub candidates_of : Result (List String) → List String
candidates_of (ok candidates) = candidates
candidates_of (err message) = []
