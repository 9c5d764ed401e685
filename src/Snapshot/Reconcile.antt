-- ===== src/Snapshot/Reconcile.antt =====
-- What `syseba_snapshot_reconcile` reports, against a description that has no marks.
use mathlib.Core.Option
use mathlib.Core.List.{append_assoc, append-nil}
use sy_se_ba.Prelude.{
  ◌≡◌, refl, ap, ap₂, ◌∙◌, sym, Bool, true, false, Option, none, some, List, [], ◌∷◌, ◌++◌, map,
  All, ◌&&◌, ◌==◌, if◌then◌else◌, Bool-cases, inl, inr, arith,
}
use sy_se_ba.Prelude.Text.{Text, streq}
use sy_se_ba.Snapshot.{
  Entry, Chain, Snapshot, Change, EventKind, snapshot_find, mark_seen, compare_entry,
  reconcile_current, reconcile_previous, entries_of, snapshot_reconcile,
}
use sy_se_ba.Snapshot.Table.{IsFresh, IsTable, mark_by, mark_buckets, is_path}
use sy_se_ba.Snapshot.Lookup.{among, is_found, among-entries_of, snapshot_find-own, All-imp}
use sy_se_ba.Snapshot.Mark.{mark_table, snapshot_find-mark_table, IsTable-mark_table, mark_step}

pub gather : (Entry → List Change) → List Entry → List Change
gather f [] = []
gather f (e ∷ es) = f e ++ gather f es

mark_by_join :
    (es : List Entry) (e d : Entry)
    → mark_by (among es) (mark_by (is_path e.path) d) ≡ mark_by (among (e ∷ es)) d
unfolding mark_by among
mark_by_join es e d = elim (Bool-cases (streq d.path e.path)) [
  | inl hit ↦ rw hit (again (among es d.path))
  | inr miss ↦ rw miss refl
]
  where
    again :
        (b : Bool)
        → (if b then record d { seen = true } else record d { seen = true })
          ≡ record d { seen = true }
    again true = refl
    again false = refl

map-id_by {ℓ} : {A : Type ℓ} (f : A → A) → ((a : A) → f a ≡ a) → (xs : List A) → map f xs ≡ xs
map-id_by f h [] = refl
map-id_by f h (x ∷ xs) = ap₂ ◌∷◌ (h x) (map-id_by f h xs)

map-map_by {ℓ} :
    {A : Type ℓ} (f g k : A → A)
    → ((a : A) → f (g a) ≡ k a)
    → (xs : List A) → map f (map g xs) ≡ map k xs
map-map_by f g k h [] = refl
map-map_by f g k h (x ∷ xs) = ap₂ ◌∷◌ (h x) (map-map_by f g k h xs)

mark_buckets_join :
    (es : List Entry) (e : Entry) (buckets : List Chain)
    → mark_buckets (among es) (mark_buckets (is_path e.path) buckets)
      ≡ mark_buckets (among (e ∷ es)) buckets
mark_buckets_join es e =
    map-map_by (map (mark_by (among es))) (map (mark_by (is_path e.path)))
      (map (mark_by (among (e ∷ es))))
      (map-map_by (mark_by (among es)) (mark_by (is_path e.path)) (mark_by (among (e ∷ es)))
        (mark_by_join es e))

mark_buckets_none : (buckets : List Chain) → mark_buckets (among []) buckets ≡ buckets
unfolding mark_by among
mark_buckets_none =
    map-id_by (map (mark_by (among []))) (map-id_by (mark_by (among [])) (λ d. refl))

-- Two entries of a path look the same: a directory always does.
unfoldable pub looks_same : Entry → Entry → Bool
looks_same old e = if e.is_directory then true else e.mtime_ns == old.mtime_ns && e.size == old.size

-- What is to be reported for an entry, from the one that the path had before.
unfoldable pub described : Option Entry → Entry → List Change
unfolding looks_same
described none e =
    record { kind = EventKind.create; path = e.path; is_directory = e.is_directory } ∷ []
described (some old) e =
    if looks_same old e
    then []
    else record { kind = EventKind.modify; path = e.path; is_directory = false } ∷ []

-- What is to be reported for an entry of the current snapshot.
unfoldable pub change_of : Snapshot → Entry → List Change
unfolding described
change_of previous e = described (snapshot_find previous e.path) e

compare_entry_lem : (old : Option Entry) (e : Entry) → compare_entry old e ≡ described old e
unfolding compare_entry described looks_same
compare_entry_lem none e = refl
compare_entry_lem (some old) e = ground arith

described-mark :
    (test : Text → Bool) (old : Option Entry) (e : Entry)
    → described (Option.map (mark_by test) old) e ≡ described old e
unfolding described looks_same mark_by
described-mark test none e = refl
described-mark test (some old) e = elim (Bool-cases (test old.path)) [
  | inl h ↦ rw h refl
  | inr h ↦ rw h refl
]

change_of-mark :
    (test : Text → Bool) (s : Snapshot) (es : List Entry)
    → gather (change_of (mark_table test s)) es ≡ gather (change_of s) es
unfolding gather change_of
change_of-mark test s [] = refl
change_of-mark test s (e ∷ es) =
    ap₂ ◌++◌
      (ap (λ o. described o e) (snapshot_find-mark_table test e.path s)
        ∙ described-mark test (snapshot_find s e.path) e)
      (change_of-mark test s es)

reconcile_current_lem :
    (es : List Entry) (s : Snapshot) (calls : List Change)
    → IsTable s
    → reconcile_current es s calls ≡ (mark_table (among es) s, calls ++ gather (change_of s) es)
unfolding reconcile_current gather change_of
reconcile_current_lem [] s calls t =
    ap₂ (λ b c. (record s { buckets = b }, c)) (sym (mark_buckets_none s.buckets))
      (sym (append-nil calls))
reconcile_current_lem (e ∷ es) s calls t =
    ap
      (λ c.
        reconcile_current es
          (elim (snapshot_find s e.path) [ none ↦ s | some _ ↦ mark_seen s e.path ]) (calls ++ c))
      (compare_entry_lem (snapshot_find s e.path) e)
    ∙ ap (λ m. reconcile_current es m (calls ++ change_of s e)) (mark_step s e.path t)
    ∙ reconcile_current_lem es (mark_table (is_path e.path) s) (calls ++ change_of s e)
        (IsTable-mark_table (is_path e.path) s t)
    ∙ ap₂ (λ b c. (record s { buckets = b }, c)) (mark_buckets_join es e s.buckets)
        (ap (λ c. calls ++ change_of s e ++ c) (change_of-mark (is_path e.path) s es)
          ∙ append_assoc calls (change_of s e) (gather (change_of s) es))

entries_of-mark :
    (test : Text → Bool) (buckets : List Chain)
    → entries_of (mark_buckets test buckets) ≡ map (mark_by test) (entries_of buckets)
unfolding entries_of
entries_of-mark test [] = refl
entries_of-mark test (chain ∷ buckets) =
    ap (◌++◌ (map (mark_by test) chain)) (entries_of-mark test buckets)
    ∙ sym (map-append test chain (entries_of buckets))
  where
    map-append :
        (test : Text → Bool) (c d : Chain)
        → map (mark_by test) (c ++ d) ≡ map (mark_by test) c ++ map (mark_by test) d
    map-append test [] d = refl
    map-append test (x ∷ c) d = ap (◌∷◌ (mark_by test x)) (map-append test c d)

unfoldable removal : Bool → Entry → List Change
removal true e = []
removal false e =
    record { kind = EventKind.delete; path = e.path; is_directory = e.is_directory } ∷ []

reconcile_previous_lem :
    (test : Text → Bool) (es : List Entry) (calls : List Change)
    → IsFresh es
    → reconcile_previous (map (mark_by test) es) calls
      ≡ calls ++ gather (λ e. removal (test e.path) e) es
unfolding reconcile_previous mark_by removal gather
reconcile_previous_lem test [] calls h = sym (append-nil calls)
reconcile_previous_lem test (e ∷ es) calls (h, hs) = elim (Bool-cases (test e.path)) [
  | inl hit ↦ rw hit (reconcile_previous_lem test es calls hs)
  | inr miss ↦
      rw (miss, h)
        (reconcile_previous_lem test es
            (calls
              ++ record { kind = EventKind.delete; path = e.path; is_directory = e.is_directory }
                ∷ [])
            hs
          ∙ append_assoc calls
              (record { kind = EventKind.delete; path = e.path; is_directory = e.is_directory }
                ∷ [])
              (gather (λ e. removal (test e.path) e) es))
]

-- What is reported for an entry of the previous snapshot.
unfoldable pub removal_of : Snapshot → Entry → List Change
unfolding removal
removal_of current e = removal (is_found (snapshot_find current e.path)) e

gather_ext :
    (f g : Entry → List Change)
    → ((e : Entry) → f e ≡ g e)
    → (es : List Entry) → gather f es ≡ gather g es
unfolding gather
gather_ext f g h [] = refl
gather_ext f g h (e ∷ es) = ap₂ ◌++◌ (h e) (gather_ext f g h es)

-- For two snapshots with every entry in the bucket of its hash and each path once, the previous
-- one unmarked, the calls of syseba_app_enqueue are exactly these, in this order: for each entry
-- of the current snapshot a creation if a lookup of its path in the previous one fails, and a
-- modification if it is no directory and size or time differ; then for each entry of the previous
-- snapshot whose path the current one lacks a deletion.
pub snapshot_reconcile_lem :
    (previous current : Snapshot)
    → IsTable previous
    → IsTable current
    → IsFresh (entries_of previous.buckets)
    → snapshot_reconcile previous current
      ≡ gather (change_of previous) (entries_of current.buckets)
        ++ gather (removal_of current) (entries_of previous.buckets)
unfolding snapshot_reconcile removal_of removal
snapshot_reconcile_lem previous current t u fresh =
    let now = entries_of current.buckets in
    let changes = gather (change_of previous) now in
    ap (λ r. reconcile_previous (entries_of r.0.buckets) r.1)
      (reconcile_current_lem now previous [] t)
    ∙ ap (λ es. reconcile_previous es changes) (entries_of-mark (among now) previous.buckets)
    ∙ reconcile_previous_lem (among now) (entries_of previous.buckets) changes fresh
    ∙ ap (◌++◌ changes) (
        gather_ext (λ e. removal (among now e.path) e) (removal_of current)
          (λ e. ap (λ b. removal b e) (among-entries_of current e.path u))
          (entries_of previous.buckets))

gather-nil : (f : Entry → List Change) (es : List Entry) → All (λ e. f e ≡ []) es → gather f es ≡ []
unfolding gather
gather-nil f [] h = refl
gather-nil f (e ∷ es) (h, hs) = ap₂ ◌++◌ h (gather-nil f es hs)

-- A snapshot with every entry in the bucket of its hash, each path once and none marked, compared
-- with itself, makes no call.
pub snapshot_reconcile_self :
    (s : Snapshot) → IsTable s → IsFresh (entries_of s.buckets) → snapshot_reconcile s s ≡ []
unfolding change_of described looks_same removal_of removal is_found
snapshot_reconcile_self s t fresh =
    snapshot_reconcile_lem s s t t fresh
    ∙ ap₂ ◌++◌
        (gather-nil (change_of s) (entries_of s.buckets) (
          All-imp (λ e. snapshot_find s e.path ≡ some e) (λ e. change_of s e ≡ []) unchanged
            (entries_of s.buckets) (snapshot_find-own s t)))
        (gather-nil (removal_of s) (entries_of s.buckets) (
          All-imp (λ e. snapshot_find s e.path ≡ some e) (λ e. removal_of s e ≡ []) present
            (entries_of s.buckets) (snapshot_find-own s t)))
  where
    unchanged : (e : Entry) → snapshot_find s e.path ≡ some e → change_of s e ≡ []
    unchanged e h = rw h (ground arith)

    present : (e : Entry) → snapshot_find s e.path ≡ some e → removal_of s e ≡ []
    present e h = rw h refl
