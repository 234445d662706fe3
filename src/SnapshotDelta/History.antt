-- ===== src/SnapshotDelta/History.antt =====
-- What the store retains, and that a client which is not too far behind gets a change.
use Prim.Native.Nat.{max}
use mathlib.Core.Path.{ap₂}
use patchhub.Prelude.{
  All, Bool, Bool-cases, List, String, [], append-nil, append_assoc, arith, drop, eqb, false,
  if_keeps, if◌then◌else◌, inl, inr, keep_last, keep_last-keep_last, map, refl, some, suc, take,
  true, zero, ℕ, ◌++◌, ◌||◌, ◌∙◌, ◌∷◌, ◌≡◌,
}
use patchhub.Dict.{Dict}
use patchhub.SnapshotDelta.{
  Delta, Snapshot, Store, build_delta, changes, find_seq, from_previous, last_record, new_store,
  record_snapshot, resync_needed, unchanged,
}

module _ {V : Type 0} where
  pub record_all : Store V → List (Snapshot V) → Store V
  record_all s [] = s
  record_all s (snap ∷ snaps) = record_all (record_snapshot s snap) snaps

  -- The part of a snapshot that is kept.
  abbrev pub trim : Snapshot V → Snapshot V
  trim snap = record snap { runs = take 80 snap.runs }

  records-record_all :
      (s : Store V) (limit : ℕ) (history snaps : List (Snapshot V))
      → s.max_records ≡ limit
      → s.records ≡ keep_last limit history
      → (record_all s snaps).records ≡ keep_last limit (history ++ map trim snaps)
  unfolding record_all record_snapshot
  records-record_all s limit history [] m r = rw append-nil r
  records-record_all s limit history (snap ∷ snaps) m r =
      let step : (record_snapshot s snap).records ≡ keep_last limit (history ++ (trim snap ∷ [])) =
        ap₂ (λ n l. keep_last n (l ++ (trim snap ∷ []))) m r
        ∙ keep_last-keep_last limit history (trim snap ∷ []) in
      rw (append_assoc history (trim snap ∷ []) (map trim snaps)) at (
        records-record_all (record_snapshot s snap) limit (history ++ (trim snap ∷ [])) snaps m
          step)

  -- The store holds the last snapshots that were recorded, in order, at least two of them.
  pub records-new_store :
      (n : ℕ) (snaps : List (Snapshot V))
      → (record_all (new_store V n) snaps).records ≡ keep_last (max 2 n) (map trim snaps)
  unfolding new_store
  records-new_store n snaps =
      records-record_all (new_store V n) (max 2 n) [] snaps refl (ground arith)

  abbrev pub has_seq : ℕ → List (Snapshot V) → Bool
  has_seq seq [] = false
  has_seq seq (r ∷ rest) = eqb r.seq seq || has_seq seq rest

  -- All of them show the same operator info.
  abbrev pub Shows : Dict V → Snapshot V → Type 0
  Shows info r = r.operator_info ≡ info

  find_seq-some :
      (info : Dict V) (seq : ℕ) (rs : List (Snapshot V))
      → All (Shows info) rs
      → has_seq seq rs ≡ true
      → (r : Snapshot V) × (find_seq seq rs ≡ some r) × (r.operator_info ≡ info)
  unfolding find_seq
  find_seq-some info seq [] a h = cc
  find_seq-some info seq (r ∷ rest) (o, a) h = elim (Bool-cases (eqb r.seq seq)) [
    | inl e ↦ (r, rw e, o)
    | inr ne ↦
        let (r', found, o') = find_seq-some info seq rest a (ground arith) in (r', rw ne found, o')
  ]

  last_record-some :
      (info : Dict V) (seq : ℕ) (rs : List (Snapshot V))
      → All (Shows info) rs
      → has_seq seq rs ≡ true
      → (r : Snapshot V) × (last_record rs ≡ some r) × (r.operator_info ≡ info)
  unfolding last_record
  last_record-some info seq [] a h = cc
  last_record-some info seq (r ∷ []) a h = (r, refl, a.0)
  last_record-some info seq (r ∷ s ∷ rest) a h = last_of r s rest a
    where
      last_of :
          (r s : Snapshot V) (rest : List (Snapshot V))
          → All (Shows info) (r ∷ s ∷ rest)
          → (c : Snapshot V) × (last_record (r ∷ s ∷ rest) ≡ some c) × (c.operator_info ≡ info)
      last_of r s [] a = (s, refl, a.1.0)
      last_of r s (t ∷ rest) a = last_of s t rest a.1

  abbrev pub is_resync : Delta V → Bool
  is_resync (resync_needed seq) = true
  is_resync (changes payload) = false

  drop-All :
      (P : Snapshot V → Type 0) (n : ℕ) (rs : List (Snapshot V)) → All P rs → All P (drop n rs)
  drop-All P zero rs a = a
  drop-All P (suc n) [] a = tt
  drop-All P (suc n) (r ∷ rs) (p, a) = drop-All P n rs a

  map-trim-All :
      (info : Dict V) (rs : List (Snapshot V))
      → All (Shows info) rs
      → All (Shows info) (map trim rs)
  map-trim-All info [] a = tt
  map-trim-All info (r ∷ rs) (o, a) = (o, map-trim-All info rs a)

-- A client whose snapshot is among the last that the store retains, and which all show one
-- operator info, is told what changed and is not made to load everything anew.
pub build_delta-retained :
    {V : Type 0} (str : V → String) (same : Dict V → Dict V → Bool) (n since : ℕ) (info : Dict V)
    (snaps : List (Snapshot V))
    → same info info ≡ true
    → All (Shows info) snaps
    → has_seq since (keep_last (max 2 n) (map trim snaps)) ≡ true
    → is_resync (build_delta str same (record_all (new_store V n) snaps) since) ≡ false
unfolding build_delta
build_delta-retained {V} str same n since info snaps r a h =
    let rs : List (Snapshot V) = keep_last (max 2 n) (map trim snaps) in
    let shown_rs : All (Shows info) rs =
      drop-All (Shows info) _ (map trim snaps) (map-trim-All info snaps a) in
    let (previous, found, o) = find_seq-some info since rs shown_rs h in
    let (current, last, o') = last_record-some info since rs shown_rs h in
    let same_shown : same previous.operator_info current.operator_info ≡ true = ap₂ same o o' ∙ r in
    let told : is_resync (from_previous str same current (some previous)) ≡ false =
      rw same_shown refl in
    let settled : is_resync (
          if eqb since current.seq
          then changes (unchanged str same current)
          else from_previous str same current (some previous))
        ≡ false =
      if_keeps (λ d. is_resync d ≡ false) (eqb since current.seq)
        (changes (unchanged str same current)) (from_previous str same current (some previous))
        (λ _. refl) (λ _. told) in
    rw (records-new_store n snaps, last, found) settled
