-- ===== src/Tests/SnapshotRuns.antt =====
-- Two small pictures of a tree.
use sy_se_ba.Prelude.{ℕ, ◌≡◌, ◌≢◌, ◌⊎◌, inr, refl, true, false, some, [], ◌∷◌, ◌++◌, inc64, arith}
use sy_se_ba.Prelude.Text.{Text, codes, streq}
use sy_se_ba.Walk.{file, directory, entry, end, is_dots, walk_files, walk_listing}
use sy_se_ba.Snapshot.{
  Snapshot, EventKind, snapshot_hash, hash_loop, find_chain, snapshot_find, snapshot_insert,
  snapshot_reconcile, reconcile_current, reconcile_previous, mark_seen, mark_chain, compare_entry,
  entries_of, empty_snapshot,
}
use sy_se_ba.Snapshot.Table.{IsTable}
use sy_se_ba.Snapshot.Reconcile.{gather, change_of, removal_of, snapshot_reconcile_lem}
use sy_se_ba.Snapshot.Build.{
  snapshot_build_entry, snapshot_build, IsPlaced, snapshot_build-IsPlaced, fresh_entry,
}
use sy_se_ba.Snapshot.Insert.{snapshot_find-snapshot_insert}

hash_run : snapshot_hash (codes "a") ≡ 4953267810257967366
unfolding snapshot_hash hash_loop
hash_run = refl

abbrev before : Snapshot
before = record {
  buckets = (fresh_entry (codes "/a") 1 10 false ∷ fresh_entry (codes "/b") 2 20 false ∷ []) ∷ [];
  size = 2;
}

abbrev after : Snapshot
after = record {
  buckets = (fresh_entry (codes "/a") 1 11 false ∷ fresh_entry (codes "/c") 3 30 true ∷ []) ∷ [];
  size = 2;
}

reconciled :
    snapshot_reconcile before after
    ≡ record { kind = EventKind.modify; path = codes "/a"; is_directory = false }
      ∷ record { kind = EventKind.create; path = codes "/c"; is_directory = true }
      ∷ record { kind = EventKind.delete; path = codes "/b"; is_directory = false }
      ∷ []
unfolding snapshot_reconcile reconcile_current reconcile_previous mark_seen mark_chain compare_entry
    snapshot_find find_chain entries_of snapshot_hash hash_loop streq
reconciled = refl

before-IsTable : IsTable before
unfolding find_chain streq
before-IsTable = record {
  placed = ((omega arith, (omega arith, _)), _);
  distinct = ((refl, (refl, _)), _);
  some_bucket = omega arith;
}

after-IsTable : IsTable after
unfolding find_chain streq
after-IsTable = record {
  placed = ((omega arith, (omega arith, _)), _);
  distinct = ((refl, (refl, _)), _);
  some_bucket = omega arith;
}

snapshot_reconcile_lem_example :
    snapshot_reconcile before after
    ≡ gather (change_of before) (entries_of after.buckets)
      ++ gather (removal_of after) (entries_of before.buckets)
unfolding entries_of
snapshot_reconcile_lem_example =
    snapshot_reconcile_lem before after before-IsTable after-IsTable (refl, (refl, _))

abbrev stat : Text → ℕ ⊎ (ℕ × ℕ)
stat path = inr (5, 50)

abbrev built : Snapshot
built =
    (walk_files (snapshot_build_entry stat (λ _. true)) (codes "/s")
      (directory (entry (codes "f") file end)) empty_snapshot).context

snapshot_build-IsPlaced_example : IsPlaced built
snapshot_build-IsPlaced_example =
    snapshot_build-IsPlaced stat (λ _. true) true (codes "/s")
      (directory (entry (codes "f") file end)) built run
  where
    run :
        snapshot_build stat (λ _. true) true (codes "/s") (directory (entry (codes "f") file end))
        ≡ some built
    run =
        unfold snapshot_build walk_files walk_listing is_dots streq snapshot_build_entry
          snapshot_insert in
        refl

abbrev grown : Snapshot
grown = record {
  buckets =
      (fresh_entry (codes "/c") 3 30 false
        ∷ fresh_entry (codes "/a") 1 10 false
        ∷ fresh_entry (codes "/b") 2 20 false
        ∷ [])
      ∷ [];
  size = 3;
}

snapshot_find-snapshot_insert_example :
    (snapshot_find grown (codes "/c") ≡ some (fresh_entry (codes "/c") 3 30 false))
    × ((q : Text) → q ≢ codes "/c" → snapshot_find grown q ≡ snapshot_find before q)
snapshot_find-snapshot_insert_example =
    snapshot_find-snapshot_insert true before grown (codes "/c") 3 30 false run before-IsTable
  where
    run : snapshot_insert true before (codes "/c") 3 30 false ≡ some grown
    run = unfold snapshot_insert snapshot_hash hash_loop inc64 in refl
