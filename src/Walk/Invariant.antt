-- ===== src/Walk/Invariant.antt =====
-- What the callback keeps of its context, the walk keeps.
use sy_se_ba.Prelude.{ℕ, ◌≡◌, sym, subst, Bool, true, false, Bool-cases, inl, inr, arith}
use sy_se_ba.Prelude.Text.{Text, fits}
use sy_se_ba.FilePath.{path_max}
use sy_se_ba.Walk.{
  Node, file, directory, locked, special, vanished, lstat_failed, Listing, entry, end, read_failed,
  Walked, Callback, is_dots, child_path, walk_listing, walk_node, walk_files,
}
use sy_se_ba.Walk.Visits.{dots_round}

-- A fitting path whose entry does not stop the walk is passed on to the rest.
fitting_round {ℓ} :
    {S : Type ℓ} (callback : Callback S) (root name : Text) (node : Node) (rest : Listing) (s : S)
    (errno : ℕ)
    → is_dots name ≡ false
    → fits path_max (child_path root name) ≡ true
    → let r = walk_node callback (child_path root name) node s errno in
      r.ok ≡ true
      → walk_listing callback root (entry name node rest) s errno
        ≡ walk_listing callback root rest r.context r.errno
unfolding walk_listing
fitting_round callback root name node rest s errno d f h = ground arith

-- A refusal of a directory ends the entry; else its listing is next.
module _ {ℓ} {S : Type ℓ} (callback : Callback S) (path : Text) (below : Listing) (s : S)
    (errno : ℕ) where
  pub directory_entered :
      (callback path true s errno).ok ≡ true
      → walk_node callback path (directory below) s errno
        ≡ walk_listing callback path below (callback path true s errno).context 0
  unfolding walk_listing
  directory_entered h = ground arith

  pub directory_refused :
      (callback path true s errno).ok ≡ false
      → walk_node callback path (directory below) s errno ≡ callback path true s errno
  unfolding walk_listing
  directory_refused h = ground arith

-- A path that does not fit and a refused entry end the loop.
module _ {ℓ} {S : Type ℓ} (callback : Callback S) (root name : Text) (node : Node) (rest : Listing)
    (s : S) (errno : ℕ) where
  too_long_context :
      is_dots name ≡ false
      → fits path_max (child_path root name) ≡ false
      → (walk_listing callback root (entry name node rest) s errno).context ≡ s
  unfolding walk_listing
  too_long_context d f = ground arith

  entry_refused :
      is_dots name ≡ false
      → fits path_max (child_path root name) ≡ true
      → (walk_node callback (child_path root name) node s errno).ok ≡ false
      → walk_listing callback root (entry name node rest) s errno
        ≡ walk_node callback (child_path root name) node s errno
  unfolding walk_listing
  entry_refused d f h = ground arith

locked_context {ℓ} :
    {S : Type ℓ} (callback : Callback S) (path : Text) (e : ℕ) (s : S) (errno : ℕ)
    → (walk_node callback path (locked e) s errno).context ≡ (callback path true s errno).context
unfolding walk_listing
locked_context callback path e s errno = ground arith

module _ {ℓ κ} {S : Type ℓ} (callback : Callback S) (P : S → Type κ)
    (keeps : (path : Text) (is_directory : Bool) (s : S) (errno : ℕ)
      → P s
      → P (callback path is_directory s errno).context) where
  mutual
    unfolding walk_listing

    walk_listing-keeps :
        (l : Listing) (root : Text) (s : S) (errno : ℕ)
        → P s
        → P (walk_listing callback root l s errno).context
    walk_listing-keeps end root s errno h = h
    walk_listing-keeps (read_failed e) root s errno h = h
    walk_listing-keeps (entry name node rest) root s errno h = elim (Bool-cases (is_dots name)) [
      | inl d ↦
          subst (λ w. P (Walked.context w))
            (sym (dots_round callback root name node rest s errno d))
            (walk_listing-keeps rest root s errno h)
      | inr d ↦ elim (Bool-cases (fits path_max (child_path root name))) [
        | inr f ↦ subst P (sym (too_long_context callback root name node rest s errno d f)) h
        | inl f ↦
            let r = walk_node callback (child_path root name) node s errno in
            let now = walk_node-keeps node (child_path root name) s errno h in
            elim (Bool-cases r.ok) [
              | inl g ↦
                  subst (λ w. P (Walked.context w))
                    (sym (fitting_round callback root name node rest s errno d f g))
                    (walk_listing-keeps rest root r.context r.errno now)
              | inr g ↦
                  subst (λ w. P (Walked.context w))
                    (sym (entry_refused callback root name node rest s errno d f g)) now
            ]
      ]
    ]

    walk_node-keeps :
        (n : Node) (path : Text) (s : S) (errno : ℕ)
        → P s
        → P (walk_node callback path n s errno).context
    walk_node-keeps file path s errno h = keeps path false s errno h
    walk_node-keeps special path s errno h = h
    walk_node-keeps vanished path s errno h = h
    walk_node-keeps (lstat_failed e) path s errno h = h
    walk_node-keeps (directory below) path s errno h =
        let r = callback path true s errno in
        elim (Bool-cases r.ok) [
          | inl g ↦
              subst (λ w. P (Walked.context w))
                (sym (directory_entered callback path below s errno g))
                (walk_listing-keeps below path r.context 0 (keeps path true s errno h))
          | inr g ↦
              subst (λ w. P (Walked.context w))
                (sym (directory_refused callback path below s errno g)) (keeps path true s errno h)
        ]
    walk_node-keeps (locked e) path s errno h =
        subst P (sym (locked_context callback path e s errno)) (keeps path true s errno h)

  pub walk_files-keeps :
      (root : Text) (n : Node) (s : S) → P s → P (walk_files callback root n s).context
  unfolding walk_files
  walk_files-keeps root (directory below) s h = walk_listing-keeps below root s 0 h
  walk_files-keeps root (locked e) s h = h
  walk_files-keeps root file s h = h
  walk_files-keeps root special s h = h
  walk_files-keeps root vanished s h = h
  walk_files-keeps root (lstat_failed e) s h = h
