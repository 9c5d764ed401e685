-- ===== src/Walk/Visits.antt =====
-- Which paths the walk hands to its callback, and in which order.
use mathlib.Core.List.{foldl, foldl-append}
use sy_se_ba.Prelude.{
  ℕ, ◌≡◌, refl, ap, ◌∙◌, sym, Bool, true, false, List, [], ◌∷◌, ◌++◌, if◌then◌else◌, Bool-cases,
  inl, inr, arith,
}
use sy_se_ba.Prelude.Text.{Text}
use sy_se_ba.Walk.{
  Node, file, directory, locked, special, vanished, lstat_failed, Listing, entry, end, read_failed,
  Callback, is_dots, child_path, walk_listing, walk_node, walk_files,
}

-- A callback that always returns 0 and leaves `errno` as it was.
abbrev pub steady {ℓ} : {S : Type ℓ} → (Text → Bool → S → S) → Callback S
steady step path is_directory s errno = record {
  ok = true;
  context = step path is_directory s;
  errno = errno;
}

-- Preorder: a directory comes before what is in it; links and special files are left out.
unfoldable mutual
  pub visits : Text → Listing → List (Text × Bool)
  visits root end = []
  visits root (read_failed e) = []
  visits root (entry name node rest) =
      (if is_dots name then [] else visits_node (child_path root name) node) ++ visits root rest

  pub visits_node : Text → Node → List (Text × Bool)
  visits_node path file = (path, false) ∷ []
  visits_node path (directory below) = (path, true) ∷ visits path below
  visits_node path (locked e) = (path, true) ∷ []
  visits_node path special = []
  visits_node path vanished = []
  visits_node path (lstat_failed e) = []

abbrev pub visit {ℓ} : {S : Type ℓ} → (Text → Bool → S → S) → S → Text × Bool → S
visit step s (path, is_directory) = step path is_directory s

-- An entry that does not stop the walk is passed on to the rest.
pub entry_round {ℓ} :
    {S : Type ℓ} (callback : Callback S) (root name : Text) (node : Node) (rest : Listing) (s : S)
    (errno : ℕ)
    → is_dots name ≡ false
    → (walk_listing callback root (entry name node rest) s errno).ok ≡ true
    → let r = walk_node callback (child_path root name) node s errno in
      (r.ok ≡ true)
      × (walk_listing callback root (entry name node rest) s errno
          ≡ walk_listing callback root rest r.context r.errno)
unfolding walk_listing
entry_round callback root name node rest s errno d h = ground arith

pub dots_round {ℓ} :
    {S : Type ℓ} (callback : Callback S) (root name : Text) (node : Node) (rest : Listing) (s : S)
    (errno : ℕ)
    → is_dots name ≡ true
    → walk_listing callback root (entry name node rest) s errno
      ≡ walk_listing callback root rest s errno
unfolding walk_listing
dots_round callback root name node rest s errno d = ground arith

pub visits-dots :
    (root name : Text) (node : Node) (rest : Listing)
    → is_dots name ≡ true
    → visits root (entry name node rest) ≡ visits root rest
unfolding visits
visits-dots root name node rest d = rw d

pub visits-entry :
    (root name : Text) (node : Node) (rest : Listing)
    → is_dots name ≡ false
    → visits root (entry name node rest)
      ≡ visits_node (child_path root name) node ++ visits root rest
unfolding visits
visits-entry root name node rest d = rw d

module _ {ℓ} {S : Type ℓ} (step : Text → Bool → S → S) where
  mutual
    unfolding walk_listing visits

    walk_listing-visits :
        (l : Listing) (root : Text) (s : S) (errno : ℕ)
        → (walk_listing (steady step) root l s errno).ok ≡ true
        → (walk_listing (steady step) root l s errno).context ≡ foldl (visit step) s (visits root l)
    walk_listing-visits end root s errno h = refl
    walk_listing-visits (read_failed e) root s errno h = refl
    walk_listing-visits (entry name node rest) root s errno h = elim (Bool-cases (is_dots name)) [
      | inl d ↦
          let same = dots_round (steady step) root name node rest s errno d in
          ap (λ w. w.context) same
          ∙ walk_listing-visits rest root s errno (sym (ap (λ w. w.ok) same) ∙ h)
          ∙ ap (foldl (visit step) s) (sym (visits-dots root name node rest d))
      | inr d ↦
          let (fine, same) = entry_round (steady step) root name node rest s errno d h in
          let r = walk_node (steady step) (child_path root name) node s errno in
          ap (λ w. w.context) same
          ∙ walk_listing-visits rest root r.context r.errno (sym (ap (λ w. w.ok) same) ∙ h)
          ∙ ap (λ c. foldl (visit step) c (visits root rest))
              (walk_node-visits node (child_path root name) s errno fine)
          ∙ sym (
              foldl-append (visit step) s (visits_node (child_path root name) node)
                (visits root rest))
          ∙ ap (foldl (visit step) s) (sym (visits-entry root name node rest d))
    ]

    walk_node-visits :
        (n : Node) (path : Text) (s : S) (errno : ℕ)
        → (walk_node (steady step) path n s errno).ok ≡ true
        → (walk_node (steady step) path n s errno).context
          ≡ foldl (visit step) s (visits_node path n)
    walk_node-visits file path s errno h = refl
    walk_node-visits (directory below) path s errno h =
        walk_listing-visits below path (step path true s) 0 h
    walk_node-visits (locked e) path s errno h = cc
    walk_node-visits special path s errno h = refl
    walk_node-visits vanished path s errno h = refl
    walk_node-visits (lstat_failed e) path s errno h = cc

  -- For a callback that always returns 0 and leaves errno alone, a walk that succeeds has called
  -- it once for each file and directory of the tree, in the order of the listings with each
  -- directory before its entries, and not for links and special files.
  pub walk_files-visits :
      (root : Text) (below : Listing) (s : S)
      → (walk_files (steady step) root (directory below) s).ok ≡ true
      → (walk_files (steady step) root (directory below) s).context
        ≡ foldl (visit step) s (visits root below)
  unfolding walk_files
  walk_files-visits root below s h = walk_listing-visits below root s 0 h
