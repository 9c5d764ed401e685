-- ===== src/Files/Mkdirs.antt =====
-- What the making of directories leaves alone and what it yields.
use sy_se_ba.Prelude.{
  ℕ, ◌≡◌, ◌⊎◌, inl, inr, refl, sym, ap, ◌∙◌, subst, Bool, true, false, not, Option, none, some, [],
  ◌∷◌, ◌++◌, ◌==◌, if_both, if_either,
}
use mathlib.Core.List.{append-nil, append_assoc}
use sy_se_ba.Prelude.Text.{Text, streq, streq→eq, streq_self, fits}
use sy_se_ba.FilePath.{path_max, sep, normalize_separators, parent_dir}
use sy_se_ba.Files.{
  Thing, directory, Disk, is_some, put, make_directory, mkdirs_loop, mkdirs_text, mkdirs,
  prepare_destination, drop_slashes,
}

-- What stood somewhere stands there still, and what is new is a directory.
pub record Grows (d e : Disk) : Type 0 where
  pub kept : (q : Text) (t : Thing) → d q ≡ some t → e q ≡ some t
  pub fresh : (q : Text) → d q ≡ none → (e q ≡ none) ⊎ (e q ≡ some directory)

pub Grows-self : (d : Disk) → Grows d d
Grows-self d = record { kept = λ q t p. p; fresh = λ q p. inl p }

pub Grows-trans : (d e f : Disk) → Grows d e → Grows e f → Grows d f
Grows-trans d e f h k = record {
  kept = λ q t p. k.kept q t (h.kept q t p);
  fresh = λ q p. elim (h.fresh q p) [
    | inl absent ↦ k.fresh q absent
    | inr made ↦ inr (k.kept q directory made)
  ];
}

pub put_other :
    (path q : Text) (thing : Option Thing) (d : Disk)
    → streq q path ≡ false
    → put path thing d q ≡ d q
unfolding put
put_other path q thing d h = rw h refl

pub put_self : (path : Text) (thing : Option Thing) (d : Disk) → put path thing d path ≡ thing
unfolding put
put_self path thing d = rw (streq_self path) refl

put-Grows :
    (path : Text) (d : Disk) → is_some (d path) ≡ false → Grows d (put path (some directory) d)
put-Grows path d absent = record {
  kept = λ q t h. by_place q t h (streq q path) refl;
  fresh = λ q h. by_new q h (streq q path) refl;
}
  where
    by_place :
        (q : Text) (t : Thing)
        → d q ≡ some t
        → (b : Bool) → streq q path ≡ b
        → put path (some directory) d q ≡ some t
    by_place q t h true e = cc (subst (λ p. d p ≡ some t) (streq→eq q path e) h, absent)
    by_place q t h false e = put_other path q (some directory) d e ∙ h

    by_new :
        (q : Text)
        → d q ≡ none
        → (b : Bool) → streq q path ≡ b
        → (put path (some directory) d q ≡ none) ⊎ (put path (some directory) d q ≡ some directory)
    by_new q h true e =
        inr
          (ap (put path (some directory) d) (streq→eq q path e) ∙ put_self path (some directory) d)
    by_new q h false e = inl (put_other path q (some directory) d e ∙ h)

-- A step that may fail: the disk grows, and after a success something stands at the path.
pub record Makes (path : Text) (d : Disk) (result : Bool × Disk) : Type 0 where
  pub grows : Grows d result.1
  pub stands : result.0 ≡ true → is_some (result.1 path) ≡ true

module _ (may_make : Text → Disk → Bool) where
  make_directory-Makes : (path : Text) (d : Disk) → Makes path d (make_directory may_make path d)
  unfolding make_directory
  make_directory-Makes path d =
      if_either (Makes path d) (is_some (d path)) _ _
        (λ there. record { grows = Grows-self d; stands = λ _. there })
        (λ absent.
          if_both (Makes path d) (may_make path d) _ _
            (record {
              grows = put-Grows path d absent;
              stands = λ _. ap is_some (put_self path (some directory) d);
            })
            (record { grows = Grows-self d; stands = λ h. cc }))

  mkdirs_loop-Makes :
      (front rest : Text) (d : Disk) → Makes (front ++ rest) d (mkdirs_loop may_make front rest d)
  unfolding mkdirs_loop
  mkdirs_loop-Makes front [] d =
      subst (λ p. Makes p d (make_directory may_make front d)) (sym (append-nil front))
        (make_directory-Makes front d)
  mkdirs_loop-Makes front (c ∷ rest) d =
      by_byte (c == sep) (mkdirs_loop-Makes (front ++ c ∷ []) rest)
    where
      moved :
          (e : Disk) (r : Bool × Disk)
          → Makes ((front ++ c ∷ []) ++ rest) e r
          → Makes (front ++ c ∷ rest) e r
      moved e r = subst (λ p. Makes p e r) (append_assoc front (c ∷ []) rest)

      by_made :
          (r : Bool × Disk)
          → Makes front d r
          → ((e : Disk)
              → Makes ((front ++ c ∷ []) ++ rest) e (mkdirs_loop may_make (front ++ c ∷ []) rest e))
          → Makes (front ++ c ∷ rest) d (elim r.0 [
            | false ↦ (false, r.1)
            | true ↦ mkdirs_loop may_make (front ++ c ∷ []) rest r.1
          ])
      by_made (false, e) m more = record { grows = m.grows; stands = λ h. cc }
      by_made (true, e) m more =
          let k = moved e _ (more e) in
          record { grows = Grows-trans d e _ m.grows k.grows; stands = k.stands }

      by_byte :
          (b : Bool)
          → ((e : Disk)
              → Makes ((front ++ c ∷ []) ++ rest) e (mkdirs_loop may_make (front ++ c ∷ []) rest e))
          → Makes (front ++ c ∷ rest) d (elim b [
            | false ↦ mkdirs_loop may_make (front ++ c ∷ []) rest d
            | true ↦
                let (made, e) = make_directory may_make front d in
                elim made [
                  | false ↦ (false, e)
                  | true ↦ mkdirs_loop may_make (front ++ c ∷ []) rest e
                ]
          ])
      by_byte false more = moved d _ (more d)
      by_byte true more =
          by_made (make_directory may_make front d) (make_directory-Makes front d) more

  mkdirs_text-Makes : (path : Text) (d : Disk) → Makes path d (mkdirs_text may_make path d)
  unfolding mkdirs_text
  mkdirs_text-Makes [] d = make_directory-Makes [] d
  mkdirs_text-Makes (c ∷ rest) d = mkdirs_loop-Makes (c ∷ []) rest d

  -- For a path that is not empty, syseba_mkdirs leaves everything that stood on the disk as it
  -- was, what is new is a directory, and after a success something stands at the normalized path.
  pub mkdirs-Makes :
      (c : ℕ) (path : Text) (d : Disk)
      → Makes (drop_slashes (normalize_separators (c ∷ path))) d (mkdirs may_make (c ∷ path) d)
  unfolding mkdirs
  mkdirs-Makes c path d =
      if_both (Makes (drop_slashes (normalize_separators (c ∷ path))) d)
        (not (fits path_max (c ∷ path))) _ _ (record { grows = Grows-self d; stands = λ h. cc })
        (mkdirs_text-Makes (drop_slashes (normalize_separators (c ∷ path))) d)

  pub prepare_destination-Grows :
      (destination : Text) (d : Disk) → Grows d (prepare_destination may_make destination d).1
  unfolding prepare_destination mkdirs
  prepare_destination-Grows destination d = by_parent (parent_dir destination path_max)
    where
      by_path : (path : Text) → Grows d (mkdirs may_make path d).1
      by_path [] = Grows-self d
      by_path (c ∷ path) = (mkdirs-Makes c path d).grows

      by_parent :
          (o : Option Text)
          → Grows d
              (elim o as (λ _. Bool × Disk) [
                | none ↦ (false, d)
                | some parent ↦ mkdirs may_make parent d
              ]).1
      by_parent none = Grows-self d
      by_parent (some parent) = by_path parent
