-- ===== src/Walk/Gathers.antt =====
-- What the callback of the walk of src/fs.c makes of the paths so far, the walk makes of them all.
use mathlib.Core.List.{append_assoc, append-nil}
use sy_se_ba.Prelude.{
  ℕ, ◌≡◌, sym, ap, ◌∙◌, subst, Bool, true, false, List, [], ◌∷◌, ◌++◌, Bool-cases, inl, inr, arith,
}
use sy_se_ba.Prelude.Text.{Text}
use sy_se_ba.Walk.{
  Node, file, directory, locked, special, vanished, lstat_failed, Listing, entry, end, read_failed,
  Walked, Callback, is_dots, child_path, walk_listing, walk_node, walk_files,
}
use sy_se_ba.Walk.Visits.{visits, visits_node, entry_round, dots_round, visits-dots, visits-entry}
use sy_se_ba.Walk.Invariant.{directory_entered, directory_refused}

absurd_bool {κ} : {A : Type κ} → false ≡ true → A
absurd_bool e = cc

module _ {ℓ κ} {S : Type ℓ} (callback : Callback S) (P : List (Text × Bool) → S → Type κ)
    (next : (seen : List (Text × Bool)) (path : Text) (d : Bool) (s : S) (errno : ℕ)
      → P seen s
      → (callback path d s errno).ok ≡ true
      → P (seen ++ (path, d) ∷ []) (callback path d s errno).context) where
  locked_fails :
      (path : Text) (e : ℕ) (s : S) (errno : ℕ)
      → (walk_node callback path (locked e) s errno).ok ≡ false
  unfolding walk_listing
  locked_fails path e s errno = ground arith

  mutual
    unfolding walk_listing visits

    walk_listing_gathers :
        (l : Listing) (root : Text) (seen : List (Text × Bool)) (s : S) (errno : ℕ)
        → P seen s
        → (walk_listing callback root l s errno).ok ≡ true
        → P (seen ++ visits root l) (walk_listing callback root l s errno).context
    walk_listing_gathers end root seen s errno p h = subst (λ l. P l s) (sym (append-nil seen)) p
    walk_listing_gathers (read_failed e) root seen s errno p h =
        subst (λ l. P l s) (sym (append-nil seen)) p
    walk_listing_gathers (entry name node rest) root seen s errno p h =
        elim (Bool-cases (is_dots name)) [
          | inl d ↦
              let same = dots_round callback root name node rest s errno d in
              subst (λ w. P (seen ++ visits root (entry name node rest)) (Walked.context w))
                (sym same)
                (subst (λ l. P (seen ++ l) (walk_listing callback root rest s errno).context)
                  (sym (visits-dots root name node rest d))
                  (walk_listing_gathers rest root seen s errno p (sym (ap (λ w. w.ok) same) ∙ h)))
          | inr d ↦
              let (fine, same) = entry_round callback root name node rest s errno d h in
              let r = walk_node callback (child_path root name) node s errno in
              let here = visits_node (child_path root name) node in
              subst (λ w. P (seen ++ visits root (entry name node rest)) (Walked.context w))
                (sym same)
                (subst (λ l. P l (walk_listing callback root rest r.context r.errno).context)
                  (append_assoc seen here (visits root rest)
                    ∙ ap (λ l. seen ++ l) (sym (visits-entry root name node rest d)))
                  (walk_listing_gathers rest root (seen ++ here) r.context r.errno
                    (walk_node_gathers node (child_path root name) seen s errno p fine)
                    (sym (ap (λ w. w.ok) same) ∙ h)))
        ]

    walk_node_gathers :
        (n : Node) (path : Text) (seen : List (Text × Bool)) (s : S) (errno : ℕ)
        → P seen s
        → (walk_node callback path n s errno).ok ≡ true
        → P (seen ++ visits_node path n) (walk_node callback path n s errno).context
    walk_node_gathers file path seen s errno p h = next seen path false s errno p h
    walk_node_gathers special path seen s errno p h = subst (λ l. P l s) (sym (append-nil seen)) p
    walk_node_gathers vanished path seen s errno p h = subst (λ l. P l s) (sym (append-nil seen)) p
    walk_node_gathers (lstat_failed e) path seen s errno p h = cc
    walk_node_gathers (locked e) path seen s errno p h =
        absurd_bool (sym (locked_fails path e s errno) ∙ h)
    walk_node_gathers (directory below) path seen s errno p h =
        let r = callback path true s errno in
        elim (Bool-cases r.ok) [
          | inl g ↦
              let same = directory_entered callback path below s errno g in
              subst (λ w. P (seen ++ visits_node path (directory below)) (Walked.context w))
                (sym same)
                (subst (λ l. P l (walk_listing callback path below r.context 0).context)
                  (append_assoc seen ((path, true) ∷ []) (visits path below))
                  (walk_listing_gathers below path (seen ++ (path, true) ∷ []) r.context 0
                    (next seen path true s errno p g) (sym (ap (λ w. w.ok) same) ∙ h)))
          | inr g ↦
              absurd_bool
                (sym g ∙ sym (ap (λ w. w.ok) (directory_refused callback path below s errno g)) ∙ h)
        ]

  -- What the callback keeps of the paths so far, it keeps of all that the walk visits.
  pub walk_files_gathers :
      (root : Text) (n : Listing) (s : S)
      → P [] s
      → (walk_files callback root (directory n) s).ok ≡ true
      → P (visits root n) (walk_files callback root (directory n) s).context
  unfolding walk_files
  walk_files_gathers root n s p h = walk_listing_gathers n root [] s 0 p h
