-- ===== src/Files/Atomic.antt =====
-- The whole of `syseba_copy_file`: what its attempts leave at the destination and elsewhere.
use sy_se_ba.Prelude.{
  ℕ, zero, suc, ◌≡◌, ◌⊎◌, inl, inr, refl, sym, ap, ◌∙◌, subst, Bool, true, false, ◌||◌, not, Option,
  none, some, ◌∷◌, ◌++◌, length, length-append, ◌==◌, if◌then◌else◌, Bool-cases, if_both, arith,
}
use sy_se_ba.Prelude.Text.{Text, codes, streq, streq→eq, fits}
use sy_se_ba.Prelude.Number.{decimal}
use sy_se_ba.FilePath.{path_max}
use sy_se_ba.Files.{Thing, Disk, is_directory, put, prepare_destination}
use sy_se_ba.Files.Mkdirs.{Grows, put_other, put_self, prepare_destination-Grows}
use sy_se_ba.Files.Copy.{
  Attempt, unlink, temporary_name, copy_file_once, atomic_replace, copy_and_replace, attempt_loop,
  copy_file,
}
use sy_se_ba.Files.Copied.{IsCopy, KeepsBut, Once, copy_file_once-Once}

temporary_name-apart :
    (suffix destination : Text) (attempt : ℕ)
    → streq destination (temporary_name suffix destination attempt) ≡ false
unfolding temporary_name
temporary_name-apart suffix destination attempt =
    elim (Bool-cases (streq destination (temporary_name suffix destination attempt))) [
      | inl same ↦ absurd (
          omega (
            arith,
            ap length (streq→eq destination _ same),
            length-append (destination ++ codes ".syseba-tmp." ++ suffix) (b'.' ∷ decimal attempt),
            length-append (destination ++ codes ".syseba-tmp.") suffix,
            length-append destination (codes ".syseba-tmp."),
          ))
      | inr apart ↦ apart
    ]

-- The place `path` holds what `P` says, or what it held before if it held something.
Settled : (Option Thing → Type 0) → Text → Disk → Disk → Type 0
Settled P path d e = P (e path) ⊎ ((t : Thing) → d path ≡ some t → e path ≡ some t)

module _ (a : Attempt) (temporary destination : Text)
    (apart : streq destination temporary ≡ false) where
  record Step (d : Disk) (r : Bool × Disk) : Type 0 where
    keeps :
        (q : Text) (t : Thing)
        → streq q temporary ≡ false
        → streq q destination ≡ false
        → d q ≡ some t
        → r.1 q ≡ some t
    settled : Settled (IsCopy a) destination d r.1
    finished : r.0 ≡ true → IsCopy a (r.1 destination)

  -- A step that leaves the destination alone and does not succeed.
  idle : (d e : Disk) → KeepsBut temporary d e → Step d (false, e)
  unfolding KeepsBut Settled
  idle d e k = record {
    keeps = λ q t away other h. k q t away h;
    settled = inr (λ t h. k destination t apart h);
    finished = λ h. cc;
  }

  atomic_replace-Step :
      (d e : Disk)
      → KeepsBut temporary d e
      → IsCopy a (e temporary)
      → Step d (atomic_replace a temporary destination e)
  unfolding atomic_replace KeepsBut Settled
  atomic_replace-Step d e k copy =
      if_both (Step d) (not a.renames || is_directory (e destination)) _ _ (idle d e k) (record {
        keeps = λ q t away other h.
            put_other temporary q none (put destination (e temporary) e) away
            ∙ put_other destination q (e temporary) e other
            ∙ k q t away h;
        settled = inl moved;
        finished = λ _. moved;
      })
    where
      moved : IsCopy a (put temporary none (put destination (e temporary) e) destination)
      moved =
          subst (IsCopy a)
            (sym (
              put_other temporary destination none (put destination (e temporary) e) apart
              ∙ put_self destination (e temporary) e))
            copy

  -- `unlink(temporary)` after a failure changes nothing of this.
  Step-unlink :
      (works : Bool) (d : Disk) (r : Bool × Disk)
      → Step d r
      → Step d (false, unlink works temporary r.1)
  unfolding Settled
  Step-unlink works d r s = by_work works
    where
      by_work : (b : Bool) → Step d (false, unlink b temporary r.1)
      by_work false = record { keeps = s.keeps; settled = s.settled; finished = λ h. cc }
      by_work true = record {
        keeps = λ q t away other h. put_other temporary q none r.1 away ∙ s.keeps q t away other h;
        settled = elim s.settled [
          | inl copy ↦
              inl (subst (IsCopy a) (sym (put_other temporary destination none r.1 apart)) copy)
          | inr old ↦ inr (λ t h. put_other temporary destination none r.1 apart ∙ old t h)
        ];
        finished = λ h. cc;
      }

  copy_and_replace-Step :
      (may_make : Text → Disk → Bool) (d : Disk)
      → Step d (copy_and_replace may_make a temporary destination d)
  unfolding copy_and_replace
  copy_and_replace-Step may_make d =
      by_copied (copy_file_once may_make a temporary d) (copy_file_once-Once a temporary may_make d)
    where
      by_replaced :
          (r : Bool × Disk)
          → Step d r
          → Step d (if r.0 then (true, r.1) else (false, unlink a.unlinks temporary r.1))
      by_replaced (true, f) s = s
      by_replaced (false, f) s = Step-unlink a.unlinks d (false, f) s

      by_copied :
          (r : Bool × Disk)
          → Once a temporary d r
          → Step d (
              let (replaced, f) =
                if r.0 then atomic_replace a temporary destination r.1 else (false, r.1) in
              if replaced then (true, f) else (false, unlink a.unlinks temporary f))
      by_copied (true, e) o =
          by_replaced (atomic_replace a temporary destination e)
            (atomic_replace-Step d e o.keeps (o.copied refl))
      by_copied (false, e) o = by_replaced (false, e) (idle d e o.keeps)

module _ (may_make : Text → Disk → Bool) (attempts : ℕ → Attempt) (destination : Text) where
  -- A whole copy made by one of the attempts.
  pub Copied : Option Thing → Type 0
  Copied thing = (i : ℕ) × IsCopy (attempts i) thing

  abbrev pub temporary_of : ℕ → Text
  temporary_of i = temporary_name (attempts i).suffix destination i

  pub record IsAtomic (d : Disk) (r : Bool × Disk) : Type 0 where
    pub keeps :
        (q : Text) (t : Thing)
        → streq q destination ≡ false
        → ((i : ℕ) → streq q (temporary_of i) ≡ false)
        → d q ≡ some t
        → r.1 q ≡ some t
    pub settled :
        Copied (r.1 destination) ⊎ ((t : Thing) → d destination ≡ some t → r.1 destination ≡ some t)
    pub finished : r.0 ≡ true → Copied (r.1 destination)

  unchanged : (d : Disk) → IsAtomic d (false, d)
  unchanged d = record {
    keeps = λ q t other away h. h;
    settled = inr (λ t h. h);
    finished = λ h. cc;
  }

  -- What a step settled, a later one leaves or settles anew.
  after_step :
      (i : ℕ) (d e : Disk) (b : Bool) (r : Bool × Disk)
      → Step
          (attempts i)
          (temporary_of i)
          destination
          (temporary_name-apart (attempts i).suffix destination i)
          d
          (b, e)
      → IsAtomic e r
      → IsAtomic d r
  unfolding Settled Copied
  after_step i d e b r s more = record {
    keeps = λ q t other away h. more.keeps q t other away (s.keeps q t (away i) other h);
    settled = elim more.settled [
      | inl copy ↦ inl copy
      | inr same ↦ elim s.settled [
        | inl copy ↦
            inl (i, subst (IsCopy (attempts i)) (copy.whole ∙ sym (same _ copy.whole)) copy)
        | inr old ↦ inr (λ t h. same t (old t h))
      ]
    ];
    finished = more.finished;
  }

  attempt_loop-IsAtomic :
      (left attempt : ℕ) (d : Disk)
      → IsAtomic d (attempt_loop may_make attempts left attempt destination d)
  unfolding attempt_loop
  attempt_loop-IsAtomic zero attempt d = unchanged d
  attempt_loop-IsAtomic (suc left) attempt d =
      if_both (IsAtomic d)
        (not (fits path_max (temporary_of attempt)) || not (attempts attempt).is_regular) _ _
        (unchanged d)
        (by_copied
          (copy_and_replace may_make (attempts attempt) (temporary_of attempt) destination d)
          (copy_and_replace-Step (attempts attempt) (temporary_of attempt) destination
            (temporary_name-apart (attempts attempt).suffix destination attempt) may_make d)
          (attempt_loop-IsAtomic left (suc attempt)))
    where
      by_copied :
          (r : Bool × Disk)
          → Step
              (attempts attempt)
              (temporary_of attempt)
              destination
              (temporary_name-apart (attempts attempt).suffix destination attempt)
              d
              r
          → ((e : Disk)
              → IsAtomic e (attempt_loop may_make attempts left (suc attempt) destination e))
          → IsAtomic d (elim r.0 [
            | true ↦ (true, r.1)
            | false ↦ attempt_loop may_make attempts left (suc attempt) destination r.1
          ])
      by_copied (true, e) s more =
          unfold Copied in
          record {
            keeps = λ q t other away h. s.keeps q t (away attempt) other h;
            settled = inl (attempt, s.finished refl);
            finished = λ _. (attempt, s.finished refl);
          }
      by_copied (false, e) s more = after_step attempt d e false _ s (more e)

  -- Whatever the system calls answer, after syseba_copy_file the destination holds a whole copy
  -- or what it held before, if it held something; a result of 0 means a whole copy; and nothing
  -- else that stood on the disk is lost or changed, save at the names of temporary files. A whole
  -- copy has all bytes read in one attempt, as many as fstat told before and after the copy, at
  -- an unchanged time of change of the same source.
  pub copy_file-IsAtomic :
      (count : ℕ) (d : Disk) → IsAtomic d (copy_file may_make attempts destination count d)
  unfolding copy_file
  copy_file-IsAtomic count d =
      by_made (prepare_destination may_make destination d)
        (prepare_destination-Grows may_make destination d)
    where
      by_grown : (e : Disk) (r : Bool × Disk) → Grows d e → IsAtomic e r → IsAtomic d r
      by_grown e r g more = record {
        keeps = λ q t other away h. more.keeps q t other away (g.kept q t h);
        settled = elim more.settled [
          | inl copy ↦ inl copy
          | inr same ↦ inr (λ t h. same t (g.kept destination t h))
        ];
        finished = more.finished;
      }

      by_made :
          (r : Bool × Disk)
          → Grows d r.1
          → IsAtomic d (
              if not r.0
              then (false, r.1)
              else attempt_loop may_make attempts
                  (if count == 0 then 1 else count)
                  0
                  destination
                  r.1)
      by_made (false, e) g = by_grown e (false, e) g (unchanged e)
      by_made (true, e) g =
          by_grown e _ g (attempt_loop-IsAtomic (if count == 0 then 1 else count) 0 e)
