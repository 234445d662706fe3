-- ===== src/SnapshotDelta.antt =====
-- scripts/patchhub/asgi/snapshot_delta_store.py: the bounded history of snapshots, and the change
-- from an earlier snapshot to the current one. An item is a dict of JSON values; their type, `str`
-- and `==` of them are parameters.
pub mod Maps
pub mod Apply
pub mod History
use Prim.Native.Nat.{max}
use patchhub.Prelude.{
  Bool, List, Option, String, [], eqb, false, if◌then◌else◌, keep_last, map, none, not, some, take,
  true, ℕ, ◌++◌, ◌<>◌, ◌∷◌,
}
use patchhub.Dict.{Dict, insert, lookup}

-- What `_diff` returns, the removed items by what `removed_fn` gives.
pub record Diff (A R : Type 0) : Type 0 where
  pub added : List A
  pub updated : List A
  pub removed : List R
  pub ordered_keys : Option (List String)

-- `{str(key_fn(item)): item for item in items}`
unfoldable pub map_loop : {A : Type 0} → (A → String) → List A → Dict A → Dict A
unfolding insert
map_loop key_fn [] acc = acc
map_loop key_fn (item ∷ items) acc = map_loop key_fn items (insert (key_fn item) item acc)

abbrev pub to_map : {A : Type 0} → (A → String) → List A → Dict A
to_map key_fn items = map_loop key_fn items []

abbrev pub is_new : {A : Type 0} → Option A → Bool
is_new none = true
is_new (some prev) = false

abbrev pub differs : {A : Type 0} → (A → A → Bool) → Option A → A → Bool
differs same none item = false
differs same (some prev) item = not (same prev item)

-- The loops of `_diff`, over the items of one dict by the other.
unfoldable pub added_loop : {A : Type 0} → Dict A → Dict A → List A
unfolding lookup
added_loop before_map [] = []
added_loop before_map ((key, item) ∷ rest) =
    let later = added_loop before_map rest in
    if is_new (lookup key before_map) then item ∷ later else later

unfoldable pub updated_loop : {A : Type 0} → (A → A → Bool) → Dict A → Dict A → List A
unfolding lookup
updated_loop same before_map [] = []
updated_loop same before_map ((key, item) ∷ rest) =
    let later = updated_loop same before_map rest in
    if differs same (lookup key before_map) item then item ∷ later else later

unfoldable pub removed_loop : {A R : Type 0} → (A → R) → Dict A → Dict A → List R
unfolding lookup
removed_loop removed_fn after_map [] = []
removed_loop removed_fn after_map ((key, item) ∷ rest) =
    let later = removed_loop removed_fn after_map rest in
    if is_new (lookup key after_map) then removed_fn item ∷ later else later

-- `_diff`
unfoldable pub diff :
    {A R : Type 0} → (A → A → Bool) → (A → String) → (A → R) → Bool → List A → List A → Diff A R
unfolding map_loop added_loop updated_loop removed_loop
diff same key_fn removed_fn include_order before after =
    let before_map = to_map key_fn before in
    let after_map = to_map key_fn after in
    record {
      added = added_loop before_map after_map;
      updated = updated_loop same before_map after_map;
      removed = removed_loop removed_fn after_map before_map;
      ordered_keys = if include_order then some (map key_fn after) else none;
    }

abbrev empty_diff : {A R : Type 0} → Option (List String) → Diff A R
empty_diff order = record { added = []; updated = []; removed = []; ordered_keys = order }

-- The signatures by the names that `sigs` has for them.
pub record Snapshot (V : Type 0) : Type 0 where
  pub seq : ℕ
  pub jobs : List (Dict V)
  pub runs : List (Dict V)
  pub patches : List (Dict V)
  pub workspaces : List (Dict V)
  pub header : Dict V
  pub operator_info : Dict V
  pub sigs : Dict String

-- `deque(maxlen=max(2, max_records))`, oldest record first.
pub record Store (V : Type 0) : Type 0 where
  pub max_records : ℕ
  pub records : List (Snapshot V)

-- The items are dicts, so a value is one of them under its key; `None` for a missing one.
abbrev pub Removed : Type 0 → Type 0
Removed V = Dict (Option V)

pub record Payload (V : Type 0) : Type 0 where
  pub seq : ℕ
  pub sigs : Dict String
  pub jobs : Diff (Dict V) (Dict String)
  pub runs : Diff (Dict V) (Removed V)
  pub patches : Diff (Dict V) (Removed V)
  pub workspaces : Diff (Dict V) (Removed V)
  pub header_changed : Bool
  pub header : Option (Dict V)

pub data Delta (V : Type 0) : Type 0 where
  resync_needed : ℕ → Delta V
  changes : Payload V → Delta V

unfoldable pub new_store : (V : Type 0) → ℕ → Store V
new_store V max_records = record { max_records = max 2 max_records; records = [] }

-- `record_snapshot`: of the runs the first 80 are kept.
unfoldable pub record_snapshot : {V : Type 0} → Store V → Snapshot V → Store V
record_snapshot s snap = record s {
  records = keep_last s.max_records (s.records ++ (record snap { runs = take 80 snap.runs } ∷ []));
}

unfoldable pub last_record : {V : Type 0} → List (Snapshot V) → Option (Snapshot V)
last_record [] = none
last_record (r ∷ []) = some r
last_record (r ∷ s ∷ rest) = last_record (s ∷ rest)

abbrev seq_of : {V : Type 0} → Option (Snapshot V) → ℕ
seq_of none = 0
seq_of (some r) = r.seq

unfoldable pub current_seq : {V : Type 0} → Store V → ℕ
unfolding last_record
current_seq s = seq_of (last_record s.records)

unfoldable pub find_seq : {V : Type 0} → ℕ → List (Snapshot V) → Option (Snapshot V)
find_seq seq [] = none
find_seq seq (r ∷ rest) = if eqb r.seq seq then some r else find_seq seq rest

module _ {V : Type 0} (str : V → String) (same : Dict V → Dict V → Bool) where
  -- `item.get(name, "")` as `str` or an f-string shows it.
  abbrev shown : Option V → String
  shown none = ""
  shown (some v) = str v

  unfoldable pub job_key : Dict V → String
  unfolding lookup
  job_key item = shown (lookup "job_id" item)

  unfoldable pub pair_key : String → String → Dict V → String
  unfolding lookup
  pair_key a b item = shown (lookup a item) <> ("|" <> shown (lookup b item))

  unfoldable pub run_key : Dict V → String
  unfolding pair_key
  run_key = pair_key "issue_id" "mtime_utc"

  unfoldable pub workspace_key : Dict V → String
  unfolding pair_key
  workspace_key = pair_key "issue_id" "workspace_rel_path"

  unfoldable pub patch_key : Dict V → String
  unfolding lookup
  patch_key item = shown (lookup "stored_rel_path" item)

  unfoldable pub removed_job : Dict V → Dict String
  unfolding job_key
  removed_job item = ("job_id", job_key item) ∷ []

  unfoldable pub removed_pair : String → String → Dict V → Removed V
  unfolding lookup
  removed_pair a b item = (a, lookup a item) ∷ (b, lookup b item) ∷ []

  unfoldable pub removed_patch : Dict V → Removed V
  unfolding lookup
  removed_patch item = ("stored_rel_path", lookup "stored_rel_path" item) ∷ []

  abbrev pub unchanged : Snapshot V → Payload V
  unchanged current = record {
    seq = current.seq;
    sigs = current.sigs;
    jobs = empty_diff none;
    runs = empty_diff none;
    patches = empty_diff (some (map patch_key current.patches));
    workspaces = empty_diff none;
    header_changed = false;
    header = none;
  }

  abbrev changed : Snapshot V → Snapshot V → Payload V
  changed previous current = record {
    seq = current.seq;
    sigs = current.sigs;
    jobs = diff same job_key removed_job false previous.jobs current.jobs;
    runs = diff same run_key (removed_pair "issue_id" "mtime_utc") false previous.runs current.runs;
    patches = diff same patch_key removed_patch true previous.patches current.patches;
    workspaces =
        diff same workspace_key (removed_pair "issue_id" "workspace_rel_path") false
          previous.workspaces current.workspaces;
    header_changed = not (same previous.header current.header);
    header = if same previous.header current.header then none else some current.header;
  }

  abbrev pub from_previous : Snapshot V → Option (Snapshot V) → Delta V
  from_previous current none = resync_needed current.seq
  from_previous current (some previous) =
      if same previous.operator_info current.operator_info
      then changes (changed previous current)
      else resync_needed current.seq

  abbrev from_current : ℕ → List (Snapshot V) → Option (Snapshot V) → Delta V
  from_current since records none = resync_needed 0
  from_current since records (some current) =
      if eqb since current.seq
      then changes (unchanged current)
      else from_previous current (find_seq since records)

  unfoldable pub build_delta : Store V → ℕ → Delta V
  unfolding diff job_key run_key workspace_key patch_key removed_job removed_pair removed_patch
      find_seq last_record
  build_delta s since = from_current since s.records (last_record s.records)
