-- ===== src/Files/Remove.antt =====
-- `syseba_remove_path` of src/fs.c: the walk collects what is in a directory, and a loop removes it
-- from the last path to the first. The stack holds the arrays of the context, its last element first.
use mathlib.Core.List.{foldl, foldl-append, append-nil, append_assoc}
use sy_se_ba.Prelude.{
  ◌≡◌, refl, sym, ap, ◌∙◌, subst, Bool, true, false, List, [], ◌∷◌, ◌++◌, if◌then◌else◌, Bool-cases,
  if_either, inl, inr,
}
use sy_se_ba.Prelude.Text.{Text}
use sy_se_ba.Walk.{
  Node, file, directory, locked, special, vanished, lstat_failed, Listing, entry, end, read_failed,
  Walked, Callback, is_dots, child_path, walk_files,
}
use sy_se_ba.Walk.Visits.{steady, visit, visits, visits_node, walk_files-visits}

-- A call of `rmdir` or `unlink`.
abbrev pub Removal : Type 0
Removal = Text × Bool

-- The callback; `memory` says whether the allocations for a path succeed.
unfoldable pub remove_collect : (Text → Bool) → Callback (List Removal)
remove_collect memory path is_directory stack errno = record {
  ok = memory path;
  context = if memory path then (path, is_directory) ∷ stack else stack;
  errno = errno;
}

module _ (works : Removal → Bool) where
  -- The calls that are made, and whether all of them return 0.
  unfoldable pub remove_loop : List Removal → List Removal × Bool
  remove_loop [] = ([], true)
  remove_loop (r ∷ stack) =
      let (calls, fine) = remove_loop stack in
      if works r then (r ∷ calls, fine) else (r ∷ [], false)

  unfoldable pub remove_collected : Text → Walked (List Removal) → List Removal × Bool
  unfolding remove_loop
  remove_collected path w = elim w.ok [
    | false ↦ ([], false)
    | true ↦
        let (calls, fine) = remove_loop w.context in
        if fine then (calls ++ (path, true) ∷ [], works (path, true)) else (calls, false)
  ]

  -- The node is what stands at the path, as `lstat` tells it.
  unfoldable pub remove_path : (Text → Bool) → Text → Node → List Removal × Bool
  unfolding remove_collected
  remove_path memory path vanished = ([], true)
  remove_path memory path (lstat_failed e) = ([], true)
  remove_path memory path file = ((path, false) ∷ [], works (path, false))
  remove_path memory path special = ((path, false) ∷ [], works (path, false))
  remove_path memory path (directory below) =
      remove_collected path (walk_files (remove_collect memory) path (directory below) [])
  remove_path memory path (locked e) =
      remove_collected path (walk_files (remove_collect memory) path (locked e) [])

-- Postorder, the last entry first: a directory comes right after all that is in it.
unfoldable mutual
  pub removals : Text → Listing → List Removal
  removals root end = []
  removals root (read_failed e) = []
  removals root (entry name node rest) =
      removals root rest ++ (if is_dots name then [] else removals_node (child_path root name) node)

  pub removals_node : Text → Node → List Removal
  removals_node path file = (path, false) ∷ []
  removals_node path (directory below) = removals path below ++ (path, true) ∷ []
  removals_node path (locked e) = (path, true) ∷ []
  removals_node path special = []
  removals_node path vanished = []
  removals_node path (lstat_failed e) = []

push : Text → Bool → List Removal → List Removal
push path is_directory stack = (path, is_directory) ∷ stack

-- What the walk visits lies on the stack in the order of the removals.
mutual
  unfolding visits removals push

  stacked :
      (l : Listing) (root : Text) (s : List Removal)
      → foldl (visit push) s (visits root l) ≡ removals root l ++ s
  stacked end root s = refl
  stacked (read_failed e) root s = refl
  stacked (entry name node rest) root s = elim (Bool-cases (is_dots name)) [
    | inl d ↦ rw d (stacked rest root s ∙ ap (λ l. l ++ s) (sym (append-nil (removals root rest))))
    | inr d ↦ rw d (
        foldl-append (visit push) s (visits_node (child_path root name) node) (visits root rest)
        ∙ ap (λ t. foldl (visit push) t (visits root rest))
            (stacked_node node (child_path root name) s)
        ∙ stacked rest root (removals_node (child_path root name) node ++ s)
        ∙ sym (append_assoc (removals root rest) (removals_node (child_path root name) node) s))
  ]

  stacked_node :
      (n : Node) (path : Text) (s : List Removal)
      → foldl (visit push) s (visits_node path n) ≡ removals_node path n ++ s
  stacked_node file path s = refl
  stacked_node (directory below) path s =
      stacked below path ((path, true) ∷ s)
      ∙ sym (append_assoc (removals path below) ((path, true) ∷ []) s)
  stacked_node (locked e) path s = refl
  stacked_node special path s = refl
  stacked_node vanished path s = refl
  stacked_node (lstat_failed e) path s = refl

-- The calls are the first ones of an order, and all of them if they succeed.
pub record Follows (order : List Removal) (r : List Removal × Bool) : Type 0 where
  pub rest : List Removal
  pub first : r.0 ++ rest ≡ order
  pub complete : r.1 ≡ true → r.0 ≡ order

module _ (works : Removal → Bool) where
  remove_loop-Follows : (stack : List Removal) → Follows stack (remove_loop works stack)
  unfolding remove_loop
  remove_loop-Follows [] = record { rest = []; first = refl; complete = λ h. refl }
  remove_loop-Follows (r ∷ stack) =
      let ih = remove_loop-Follows stack in
      if_either (Follows (r ∷ stack)) (works r) _ _
        (λ _. record {
          rest = ih.rest;
          first = ap (◌∷◌ r) ih.first;
          complete = λ h. ap (◌∷◌ r) (ih.complete h);
        })
        (λ _. record { rest = stack; first = refl; complete = λ h. cc })

  -- The stack, then the directory itself.
  collected :
      (path : Text) (stack : List Removal)
      → Follows
          (stack ++ (path, true) ∷ [])
          (remove_collected works path (record { ok = true; context = stack; errno = 0 }))
  unfolding remove_collected
  collected path stack = by_loop (remove_loop works stack) (remove_loop-Follows stack)
    where
      by_loop :
          (r : List Removal × Bool)
          → Follows stack r
          → Follows
              (stack ++ (path, true) ∷ [])
              (if r.1 then (r.0 ++ (path, true) ∷ [], works (path, true)) else (r.0, false))
      by_loop (calls, true) f = record {
        rest = [];
        first =
            append-nil (calls ++ (path, true) ∷ [])
            ∙ ap (λ l. l ++ (path, true) ∷ []) (f.complete refl);
        complete = λ h. ap (λ l. l ++ (path, true) ∷ []) (f.complete refl);
      }
      by_loop (calls, false) f = record {
        rest = f.rest ++ (path, true) ∷ [];
        first =
            sym (append_assoc calls f.rest ((path, true) ∷ []))
            ∙ ap (λ l. l ++ (path, true) ∷ []) f.first;
        complete = λ h. cc;
      }

  -- If memory is there and the walk of a directory succeeds, the calls that syseba_remove_path
  -- makes are the first ones of a postorder, in which each directory comes right after all that
  -- is in it and the path itself comes last, and all of it if the function succeeds.
  pub remove_path-Follows :
      (path : Text) (below : Listing)
      → (walk_files (remove_collect (λ _. true)) path (directory below) []).ok ≡ true
      → Follows
          (removals path below ++ (path, true) ∷ [])
          (remove_path works (λ _. true) path (directory below))
  unfolding remove_path remove_collect push remove_collected
  remove_path-Follows path below h =
      by_walk (walk_files (steady push) path (directory below) []) h (
        walk_files-visits push path below [] h
        ∙ stacked below path []
        ∙ append-nil (removals path below))
    where
      After : Bool → List Removal → Type 0
      After b stack =
          Follows (removals path below ++ (path, true) ∷ [])
            (remove_collected works path (record { ok = b; context = stack; errno = 0 }))

      by_walk :
          (w : Walked (List Removal))
          → w.ok ≡ true
          → w.context ≡ removals path below
          → Follows (removals path below ++ (path, true) ∷ []) (remove_collected works path w)
      by_walk w ok e =
          subst (λ b. After b w.context) (sym ok)
            (subst (After true) (sym e) (collected path (removals path below)))
