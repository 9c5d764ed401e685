-- ===== src/Restore/Names.antt =====
-- Names that are not taken: `syseba_unique_restore_path` and `syseba_unique_restored_path` of
-- src/fs.c. `exists` is `syseba_fs_exists`, on a tree that does not change meanwhile, and `stamp`
-- is the local time as `syseba_compact_stamp` writes it.
use sy_se_ba.Prelude.{
  not-true, ℕ, zero, suc, ◌+◌, ◌<◌, ◌≤◌, ◌≡◌, ◌||◌, ap, ◌∙◌, sym, subst, Bool, true, false, not,
  Option, none, some, [], ◌∷◌, ◌++◌, length, drop, ◌==◌, ltb, if◌then◌else◌, if-cases,
  guard-eq-some, inl, inr, arith,
}
use sy_se_ba.Prelude.Text.{Text, codes, fits, copy_within}
use sy_se_ba.Prelude.Number.{decimal}
use sy_se_ba.FilePath.{path_max, sep, parent_dir}

-- The loop over the candidates; its fuel is the bound of the counter.
unfoldable pub unique_loop : (Text → Bool) → (ℕ → Text) → ℕ → ℕ → ℕ → Option Text
unique_loop exists candidate size zero counter = none
unique_loop exists candidate size (suc fuel) counter =
    let rest = unique_loop exists candidate size fuel (suc counter) in
    if not (fits size (candidate counter))
    then none
    else if not (exists (candidate counter))
    then some (candidate counter)
    else rest

abbrev pub tries : ℕ
tries = 100000

-- "%s.%s" and "%s.%s.%u"
unfoldable pub restore_candidate : Text → Text → ℕ → Text
restore_candidate path stamp counter =
    if counter == 0 then path ++ b'.' ∷ stamp else path ++ b'.' ∷ stamp ++ b'.' ∷ decimal counter

unfoldable pub unique_restore_path : (Text → Bool) → Text → Text → ℕ → Option Text
unique_restore_path exists stamp path size =
    if not (exists path)
    then copy_within size path
    else unique_loop exists (restore_candidate path stamp) size tries 0

-- What stands before the last byte `c`, and from it on.
unfoldable pub split_last : ℕ → Text → Option (Text × Text)
split_last c [] = none
split_last c (d ∷ s) = elim (split_last c s) [
  | some (front, back) ↦ some (d ∷ front, back)
  | none ↦ if d == c then some ([], d ∷ s) else none
]

-- The name behind the last slash.
unfoldable pub base_name : Text → Text
unfolding split_last
base_name path = elim (split_last sep path) [ none ↦ path | some (_, back) ↦ drop 1 back ]

-- The stem and the extension; a dot at the front begins no extension.
unfoldable pub stem_and_extension : Text → Text × Text
unfolding split_last
stem_and_extension name = elim (split_last b'.' name) [
  | none ↦ (name, [])
  | some ([], _) ↦ (name, [])
  | some (c ∷ front, back) ↦ (c ∷ front, back)
]

-- "%s%c%s.restored-%s%s" and "%s%c%s.restored-%s-%u%s"
unfoldable pub restored_candidate : Text → Text → Text → Text → ℕ → Text
restored_candidate parent stem extension stamp counter =
    if counter == 0
    then parent ++ sep ∷ stem ++ codes ".restored-" ++ stamp ++ extension
    else parent ++ sep ∷ stem ++ codes ".restored-" ++ stamp ++ b'-' ∷ decimal counter ++ extension

unfoldable pub unique_restored_path : (Text → Bool) → Text → Text → ℕ → Option Text
unique_restored_path exists stamp path size =
    if not (exists path) then copy_within size path else elim (parent_dir path path_max) [
      | none ↦ none
      | some parent ↦
          let (stem, extension) = stem_and_extension (base_name path) in
          if ltb path_max (length stem + 1) || not (fits path_max extension)
          then none
          else unique_loop exists (restored_candidate parent stem extension stamp) size tries 0
    ]

unique_loop-fresh :
    (exists : Text → Bool) (candidate : ℕ → Text) (size fuel counter : ℕ) (out : Text)
    → unique_loop exists candidate size fuel counter ≡ some out
    → (exists out ≡ false) × (length out < size)
unfolding unique_loop
unique_loop-fresh exists candidate size zero counter out h = cc
unique_loop-fresh exists candidate size (suc fuel) counter out h =
    let (fit, more) = guard-eq-some (not (fits size (candidate counter))) _ h in
    elim (if-cases (not (exists (candidate counter))) more) [
      | inl (free, e) ↦
          let same = injective e in
          (
            subst (λ t. exists t ≡ false) same (not-true (exists (candidate counter)) free),
            subst (λ t. length t < size) same (short (candidate counter) fit),
          )
      | inr (_, later) ↦ unique_loop-fresh exists candidate size fuel (suc counter) out later
    ]
  where
    injective : some (candidate counter) ≡ some out → candidate counter ≡ out
    injective e = cc

    short : (t : Text) → not (fits size t) ≡ false → length t < size
    short t h = ground arith

copied-fresh :
    (exists : Text → Bool) (path out : Text) (size : ℕ)
    → exists path ≡ false
    → copy_within size path ≡ some out
    → (exists out ≡ false) × (length out < size)
copied-fresh exists path out size free h =
    (subst (λ t. exists t ≡ false) (same h) free, subst (λ t. length t < size) (same h) (short h))
  where
    same : copy_within size path ≡ some out → path ≡ out
    same h = ground arith

    short : copy_within size path ≡ some out → length path < size
    short h = ground arith

-- A path that syseba_unique_restore_path yields does not exist and fits its buffer.
pub unique_restore_path-fresh :
    (exists : Text → Bool) (stamp path out : Text) (size : ℕ)
    → unique_restore_path exists stamp path size ≡ some out
    → (exists out ≡ false) × (length out < size)
unfolding unique_restore_path
unique_restore_path-fresh exists stamp path out size h = elim (if-cases (not (exists path)) h) [
  | inl (free, e) ↦ copied-fresh exists path out size (not-true (exists path) free) e
  | inr (_, e) ↦ unique_loop-fresh exists (restore_candidate path stamp) size tries 0 out e
]

-- A path that syseba_unique_restored_path yields does not exist and fits its buffer.
pub unique_restored_path-fresh :
    (exists : Text → Bool) (stamp path out : Text) (size : ℕ)
    → unique_restored_path exists stamp path size ≡ some out
    → (exists out ≡ false) × (length out < size)
unfolding unique_restored_path
unique_restored_path-fresh exists stamp path out size h = elim (if-cases (not (exists path)) h) [
  | inl (free, e) ↦ copied-fresh exists path out size (not-true (exists path) free) e
  | inr (_, e) ↦ by_parent (parent_dir path path_max) e
]
  where
    by_parent :
        (o : Option Text)
        → (elim o [
          | none ↦ none
          | some parent ↦
              let (stem, extension) = stem_and_extension (base_name path) in
              if ltb path_max (length stem + 1) || not (fits path_max extension)
              then none
              else unique_loop exists (restored_candidate parent stem extension stamp) size tries 0
        ])
          ≡ some out
        → (exists out ≡ false) × (length out < size)
    by_parent none e = cc
    by_parent (some parent) e =
        let (_, found) = guard-eq-some _ _ e in unique_loop-fresh exists _ size tries 0 out found

unique_loop-first :
    (exists : Text → Bool) (candidate : ℕ → Text) (size fuel counter k : ℕ)
    → k < fuel
    → ((j : ℕ) → j < k → exists (candidate (counter + j)) ≡ true)
    → ((j : ℕ) → j ≤ k → length (candidate (counter + j)) < size)
    → exists (candidate (counter + k)) ≡ false
    → unique_loop exists candidate size fuel counter ≡ some (candidate (counter + k))
unfolding unique_loop
unique_loop-first exists candidate size zero counter k h taken short free = absurd (omega arith)
unique_loop-first exists candidate size (suc fuel) counter zero h taken short free =
    rw
      (
        fit (candidate counter)
            (subst (λ n. length (candidate n) < size) here (short 0 (omega arith))),
        subst (λ n. exists (candidate n) ≡ false) here free,
      )
      (ap (λ n. some (candidate n)) (sym here))
  where
    here : counter + zero ≡ counter
    here = omega arith

    fit : (t : Text) → length t < size → fits size t ≡ true
    fit t h = ground arith
unique_loop-first exists candidate size (suc fuel) counter (suc k) h taken short free =
    rw
      (
        fit (candidate counter)
            (subst (λ n. length (candidate n) < size) here (short 0 (omega arith))),
        subst (λ n. exists (candidate n) ≡ true) here (taken 0 (omega arith)),
      )
      (unique_loop-first exists candidate size fuel (suc counter) k (omega arith)
          (λ j l. subst (λ n. exists (candidate n) ≡ true) (next j) (taken (suc j) (omega arith)))
          (λ j l. subst (λ n. length (candidate n) < size) (next j) (short (suc j) (omega arith)))
          (subst (λ n. exists (candidate n) ≡ false) (next k) free)
        ∙ ap (λ n. some (candidate n)) (sym (next k)))
  where
    here : counter + 0 ≡ counter
    here = omega arith

    next : (j : ℕ) → counter + suc j ≡ suc counter + j
    next j = omega arith

    fit : (t : Text) → length t < size → fits size t ≡ true
    fit t h = ground arith

-- If the path and its first k candidates are taken, k is below 100000, the first k + 1 candidates
-- fit the buffer and the next candidate is free, syseba_unique_restore_path yields this
-- candidate.
pub unique_restore_path-first :
    (exists : Text → Bool) (stamp path : Text) (size k : ℕ)
    → exists path ≡ true
    → k < tries
    → ((j : ℕ) → j < k → exists (restore_candidate path stamp j) ≡ true)
    → ((j : ℕ) → j ≤ k → length (restore_candidate path stamp j) < size)
    → exists (restore_candidate path stamp k) ≡ false
    → unique_restore_path exists stamp path size ≡ some (restore_candidate path stamp k)
unfolding unique_restore_path
unique_restore_path-first exists stamp path size k there bound taken short free =
    ap
      (λ b.
        if not b
        then copy_within size path
        else unique_loop exists (restore_candidate path stamp) size tries 0)
      there
    ∙ (unique_loop-first exists (restore_candidate path stamp) size tries 0 k bound
          (λ j l. subst (λ n. exists (restore_candidate path stamp n) ≡ true) (from j) (taken j l))
          (λ j l. subst (λ n. length (restore_candidate path stamp n) < size) (from j) (short j l))
          (subst (λ n. exists (restore_candidate path stamp n) ≡ false) (from k) free)
        ∙ ap (λ n. some (restore_candidate path stamp n)) (sym (from k)))
  where
    from : (j : ℕ) → j ≡ 0 + j
    from j = omega arith
