-- ===== src/Snapshot/Insert.antt =====
-- What an insertion (`syseba_snapshot_insert`) does to the lookups.
use sy_se_ba.Prelude.{
  ℕ, ◌%◌, ◌<◌, ◌≡◌, ◌≢◌, ap, ap₂, subst, ◌∙◌, sym, Bool, false, none, some, [], ◌∷◌, length,
  length-set, get_or, get_or-set_self, get_or-set_ne, set, All, ◌==◌, ==→eq, if◌then◌else◌,
  Bool-cases, inl, inr, arith,
}
use native.Mathlib.Nat.{mod-lt}
use sy_se_ba.Prelude.Text.{Text, streq, streq→eq, streq_self}
use sy_se_ba.Snapshot.{
  Entry, Snapshot, snapshot_hash, home, find_chain, snapshot_find, snapshot_insert,
}
use sy_se_ba.Snapshot.Table.{PlacedFrom, DistinctPaths, IsTable}
use sy_se_ba.Snapshot.Build.{fresh_entry, snapshot_insert_buckets, PlacedFrom-set, All-set}

module _ (allocated : Bool) (s t : Snapshot) (path : Text) (size mtime_ns : ℕ) (is_directory : Bool)
    (ok : snapshot_insert allocated s path size mtime_ns is_directory ≡ some t)
    (table : IsTable s) where
  abbrev added : Entry
  added = fresh_entry path size mtime_ns is_directory

  same :
      t.buckets
      ≡ set s.buckets (home s.buckets path) (added ∷ get_or s.buckets (home s.buckets path) [])
  same = snapshot_insert_buckets allocated s t path size mtime_ns is_directory ok

  count : length t.buckets ≡ length s.buckets
  count =
      ap length same
      ∙ length-set s.buckets (home s.buckets path)
          (added ∷ get_or s.buckets (home s.buckets path) [])

  find_after :
      (q : Text)
      → snapshot_find t q
        ≡ find_chain q (
            get_or
              (set s.buckets
                (home s.buckets path)
                (added ∷ get_or s.buckets (home s.buckets path) []))
              (home s.buckets q)
              [])
  unfolding snapshot_find
  find_after q =
      ap₂ (λ n b. if n == 0 then none else find_chain q (get_or b (snapshot_hash q % n) [])) count
        same
      ∙ ap
          (λ b.
            if b
            then none
            else find_chain q (
                get_or
                  (set s.buckets (home s.buckets path)
                    (added ∷ get_or s.buckets (home s.buckets path) []))
                  (home s.buckets q) []))
          nonempty
    where
      nonempty : (length s.buckets == 0) ≡ false
      nonempty = ground (arith, table.some_bucket)

  chain_after :
      (q : Text)
      → q ≢ path
      → find_chain q (
          get_or
            (set s.buckets
              (home s.buckets path)
              (added ∷ get_or s.buckets (home s.buckets path) []))
            (home s.buckets q)
            [])
        ≡ find_chain q (get_or s.buckets (home s.buckets q) [])
  unfolding find_chain
  chain_after q ne = elim (Bool-cases (home s.buckets path == home s.buckets q)) [
    | inl e ↦
        let k = ==→eq (home s.buckets path) (home s.buckets q) e in
        ap
          (λ j. find_chain q (
            get_or
              (set s.buckets (home s.buckets path)
                (added ∷ get_or s.buckets (home s.buckets path) []))
              j []))
          (sym k)
        ∙ ap (find_chain q) (
            get_or-set_self s.buckets (home s.buckets path)
              (added ∷ get_or s.buckets (home s.buckets path) []) []
              (mod-lt (snapshot_hash path) table.some_bucket))
        ∙ ap
            (λ b.
              if b then some added else find_chain q (get_or s.buckets (home s.buckets path) []))
            differs
        ∙ ap (λ j. find_chain q (get_or s.buckets j [])) k
    | inr e ↦ ap (find_chain q) (
        get_or-set_ne s.buckets (home s.buckets path) (home s.buckets q)
          (added ∷ get_or s.buckets (home s.buckets path) []) [] (λ k. ground (arith, e)))
  ]
    where
      differs : streq path q ≡ false
      differs = elim (Bool-cases (streq path q)) [
        | inl h ↦ absurd (ne (sym (streq→eq path q h)))
        | inr h ↦ h
      ]

  -- After an insertion that succeeds into a table in order, a lookup of the inserted path finds
  -- the new entry, unmarked, and a lookup of any other path finds what it found before.
  pub snapshot_find-snapshot_insert :
      (snapshot_find t path ≡ some (fresh_entry path size mtime_ns is_directory))
      × ((q : Text) → q ≢ path → snapshot_find t q ≡ snapshot_find s q)
  unfolding find_chain snapshot_find
  snapshot_find-snapshot_insert = (
    find_after path
        ∙ ap (find_chain path) (
            get_or-set_self s.buckets (home s.buckets path)
              (added ∷ get_or s.buckets (home s.buckets path) []) []
              (mod-lt (snapshot_hash path) table.some_bucket))
        ∙ ap
            (λ b.
              if b then some added else find_chain path (get_or s.buckets (home s.buckets path) []))
            (streq_self path),
    λ q ne.
        find_after q
        ∙ chain_after q ne
        ∙ sym (
            ap (λ b. if b then none else find_chain q (get_or s.buckets (home s.buckets q) []))
              nonempty),
  )
    where
      nonempty : (length s.buckets == 0) ≡ false
      nonempty = ground (arith, table.some_bucket)

  -- The insertion of a path that the table lacks keeps the table in order.
  pub snapshot_insert-IsTable : snapshot_find s path ≡ none → IsTable t
  unfolding snapshot_find
  snapshot_insert-IsTable absent = record {
    placed =
        subst (λ b. PlacedFrom (length t.buckets) 0 b) (sym same)
          (subst
            (λ n. PlacedFrom n 0 (
              set s.buckets (home s.buckets path)
                (added ∷ get_or s.buckets (home s.buckets path) [])))
            (sym count)
            (PlacedFrom-set (length s.buckets) 0 (home s.buckets path) added s.buckets table.placed
              (omega arith)));
    distinct = subst (All DistinctPaths) (sym same) (
        All-set DistinctPaths (home s.buckets path) added s.buckets
          (λ c q d. (ap (find_chain path) (sym q) ∙ missing, d)) table.distinct);
    some_bucket = subst (λ n. 0 < n) (sym count) table.some_bucket;
  }
    where
      nonempty : (length s.buckets == 0) ≡ false
      nonempty = ground (arith, table.some_bucket)

      missing : find_chain path (get_or s.buckets (home s.buckets path) []) ≡ none
      missing =
          subst
            (λ b.
              (if b then none else find_chain path (get_or s.buckets (home s.buckets path) []))
              ≡ none)
            nonempty absent
