-- ===== src/Files/Copied.antt =====
-- What a copy leaves: the destination is as before or a whole copy, and nothing else is lost.
use sy_se_ba.Prelude.{
  ℕ, zero, suc, ◌%◌, ◌≡◌, refl, sym, ap, ◌∙◌, subst, Bool, true, false, ◌||◌, not, Option, none,
  some, List, [], ◌∷◌, ◌++◌, length, take, drop, ◌==◌, if◌then◌else◌, if_both, if_either, arith,
}
use mathlib.Core.List.{append-nil, append_assoc}
use sy_se_ba.Prelude.Text.{Text, streq}
use sy_se_ba.Files.{Bytes, Thing, file, Disk, is_some, put, prepare_destination}
use sy_se_ba.Files.Mkdirs.{Grows, put_other, put_self, prepare_destination-Grows}
use sy_se_ba.Files.Copy.{
  Write, wrote, Read, chunk, write_loop, copy_loop, Stat, Attempt, same_source, unlink, finish_copy,
  fill_copy, copy_file_once,
}

-- What the calls of `read` deliver, up to the end of the file.
abbrev pub read_bytes : List Read → Bytes
read_bytes [] = []
read_bytes (Read.interrupted ∷ rounds) = read_bytes rounds
read_bytes (Read.failed ∷ rounds) = []
read_bytes (chunk [] ws ∷ rounds) = []
read_bytes (chunk (b ∷ bytes) ws ∷ rounds) = b ∷ bytes ++ read_bytes rounds

take-append-drop : (n : ℕ) (xs : Bytes) → take n xs ++ drop n xs ≡ xs
take-append-drop zero xs = refl
take-append-drop (suc n) [] = refl
take-append-drop (suc n) (x ∷ xs) = ap (◌∷◌ x) (take-append-drop n xs)

-- Short writes and interruptions lose nothing.
write_loop-writes :
    (ws : List Write) (rest out : Bytes)
    → (write_loop ws rest out).0 ≡ true
    → (write_loop ws rest out).1 ≡ out ++ rest
unfolding write_loop
write_loop-writes [] rest out h = refl
write_loop-writes (w ∷ ws) [] out h = sym (append-nil out)
write_loop-writes (Write.interrupted ∷ ws) (b ∷ rest) out h = write_loop-writes ws (b ∷ rest) out h
write_loop-writes (Write.failed ∷ ws) (b ∷ rest) out h = cc
write_loop-writes (wrote n ∷ ws) (b ∷ rest) out h =
    by_count (n == 0) h (write_loop-writes ws (drop n (b ∷ rest)) (out ++ take n (b ∷ rest)))
  where
    by_count :
        (z : Bool)
        → (elim z as (λ _. Bool × Bytes) [
          | true ↦ (false, out)
          | false ↦ write_loop ws (drop n (b ∷ rest)) (out ++ take n (b ∷ rest))
        ]).0
          ≡ true
        → ((write_loop ws (drop n (b ∷ rest)) (out ++ take n (b ∷ rest))).0 ≡ true
            → (write_loop ws (drop n (b ∷ rest)) (out ++ take n (b ∷ rest))).1
              ≡ (out ++ take n (b ∷ rest)) ++ drop n (b ∷ rest))
        → (elim z as (λ _. Bool × Bytes) [
          | true ↦ (false, out)
          | false ↦ write_loop ws (drop n (b ∷ rest)) (out ++ take n (b ∷ rest))
        ]).1
          ≡ out ++ b ∷ rest
    by_count true h ih = cc
    by_count false h ih =
        ih h
        ∙ append_assoc out (take n (b ∷ rest)) (drop n (b ∷ rest))
        ∙ ap (◌++◌ out) (take-append-drop n (b ∷ rest))

copy_loop-writes :
    (rounds : List Read) (out : Bytes)
    → (copy_loop rounds out).0 ≡ true
    → (copy_loop rounds out).1 ≡ out ++ read_bytes rounds
unfolding copy_loop
copy_loop-writes [] out h = sym (append-nil out)
copy_loop-writes (Read.interrupted ∷ rounds) out h = copy_loop-writes rounds out h
copy_loop-writes (Read.failed ∷ rounds) out h = cc
copy_loop-writes (chunk [] ws ∷ rounds) out h = sym (append-nil out)
copy_loop-writes (chunk (b ∷ bytes) ws ∷ rounds) out h =
    by_progress (write_loop ws (b ∷ bytes) out) (write_loop-writes ws (b ∷ bytes) out)
      (copy_loop-writes rounds) h
  where
    by_progress :
        (p : Bool × Bytes)
        → (p.0 ≡ true → p.1 ≡ out ++ b ∷ bytes)
        → ((more : Bytes)
            → (copy_loop rounds more).0 ≡ true
            → (copy_loop rounds more).1 ≡ more ++ read_bytes rounds)
        → (elim p.0 as (λ _. Bool × Bytes) [ false ↦ (false, p.1) | true ↦ copy_loop rounds p.1 ]).0
          ≡ true
        → (elim p.0 as (λ _. Bool × Bytes) [ false ↦ (false, p.1) | true ↦ copy_loop rounds p.1 ]).1
          ≡ out ++ (b ∷ bytes ++ read_bytes rounds)
    by_progress (false, more) w ih h = cc
    by_progress (true, more) w ih h =
        ih more h
        ∙ ap (λ m. m ++ read_bytes rounds) (w refl)
        ∙ append_assoc out (b ∷ bytes) (read_bytes rounds)

-- A file with all bytes that were read, as many as the source had before and after, at an unchanged
-- time of change.
pub record IsCopy (a : Attempt) (thing : Option Thing) : Type 0 where
  pub before : Stat
  pub after : Stat
  pub opened : a.opened ≡ some before
  pub final : a.final ≡ some after
  pub same : same_source before after (length (read_bytes a.rounds)) ≡ true
  pub whole :
      thing
      ≡ some (
          file
            (read_bytes a.rounds)
            (if a.sets_time then before.mtime else a.now)
            (before.mode % 512))

-- Away from one path, what stood somewhere stands there still.
unfoldable pub KeepsBut : Text → Disk → Disk → Type 0
KeepsBut path d e = (q : Text) (t : Thing) → streq q path ≡ false → d q ≡ some t → e q ≡ some t

pub KeepsBut-put :
    (path : Text) (thing : Option Thing) (d : Disk) → KeepsBut path d (put path thing d)
unfolding KeepsBut
KeepsBut-put path thing d q t away h = put_other path q thing d away ∙ h

pub KeepsBut-unlink :
    (works : Bool) (path : Text) (d : Disk) → KeepsBut path d (unlink works path d)
unfolding KeepsBut
KeepsBut-unlink true path d = unfold KeepsBut in KeepsBut-put path none d
KeepsBut-unlink false path d = λ q t away h. h

pub KeepsBut-trans :
    (path : Text) (d e f : Disk) → KeepsBut path d e → KeepsBut path e f → KeepsBut path d f
unfolding KeepsBut
KeepsBut-trans path d e f h k q t away p = k q t away (h q t away p)

Grows-KeepsBut : (path : Text) (d e : Disk) → Grows d e → KeepsBut path d e
unfolding KeepsBut
Grows-KeepsBut path d e g q t away p = g.kept q t p

module _ (a : Attempt) (temporary : Text) where
  -- A copy into the temporary file.
  pub record Once (d : Disk) (r : Bool × Disk) : Type 0 where
    pub keeps : KeepsBut temporary d r.1
    pub copied : r.0 ≡ true → IsCopy a (r.1 temporary)

  failed-Once : (d : Disk) → Once d (false, unlink a.unlinks temporary d)
  failed-Once d = record { keeps = KeepsBut-unlink a.unlinks temporary d; copied = λ h. cc }

  Once-after : (d e : Disk) (r : Bool × Disk) → KeepsBut temporary d e → Once e r → Once d r
  Once-after d e r k o = record {
    keeps = KeepsBut-trans temporary d e r.1 k o.keeps;
    copied = o.copied;
  }

  finish_copy-Once :
      (before : Stat) (d : Disk)
      → a.opened ≡ some before
      → Once d (finish_copy a before (read_bytes a.rounds) temporary d)
  unfolding finish_copy
  finish_copy-Once before d opened = by_final a.final refl
    where
      sound : (s z : Bool) → not s || not z ≡ false → s ≡ true
      sound s z h = ground arith

      by_final :
          (o : Option Stat)
          → a.final ≡ o
          → Once d (elim o [
            | none ↦ (false, unlink a.unlinks temporary d)
            | some after ↦
                if not (same_source before after (length (read_bytes a.rounds))) || not a.sealed
                then (false, unlink a.unlinks temporary d)
                else (
                  true,
                  put temporary
                      (some (
                        file
                          (read_bytes a.rounds)
                          (if a.sets_time then before.mtime else a.now)
                          (before.mode % 512)))
                      d,
                )
          ])
      by_final none e = failed-Once d
      by_final (some after) e =
          if_either (Once d)
            (not (same_source before after (length (read_bytes a.rounds))) || not a.sealed) _ _
            (λ _. failed-Once d)
            (λ ok. record {
              keeps = KeepsBut-put temporary _ d;
              copied = λ _. record {
                before = before;
                after = after;
                opened = opened;
                final = e;
                same = sound (same_source before after (length (read_bytes a.rounds))) a.sealed ok;
                whole = put_self temporary _ d;
              };
            })

  fill_copy-Once :
      (before : Stat) (d : Disk) → a.opened ≡ some before → Once d (fill_copy a before temporary d)
  unfolding fill_copy
  fill_copy-Once before d opened =
      by_progress (copy_loop a.rounds []) (copy_loop-writes a.rounds [])
    where
      partly : Bytes → Disk
      partly bytes = put temporary (some (file bytes a.now (before.mode % 512))) d

      by_progress :
          (p : Bool × Bytes)
          → (p.0 ≡ true → p.1 ≡ [] ++ read_bytes a.rounds)
          → Once d (
              if p.0
              then finish_copy a before p.1 temporary
                  (put temporary (some (file p.1 a.now (before.mode % 512))) d)
              else (
                false,
                unlink a.unlinks temporary
                    (put temporary (some (file p.1 a.now (before.mode % 512))) d),
              ))
      by_progress (false, bytes) w =
          Once-after d (partly bytes) _ (KeepsBut-put temporary _ d) (failed-Once (partly bytes))
      by_progress (true, bytes) w = Once-after d (partly bytes) _ (KeepsBut-put temporary _ d) (
          subst (λ b. Once (partly bytes) (finish_copy a before b temporary (partly bytes)))
            (sym (w refl)) (finish_copy-Once before (partly bytes) opened))

  pub copy_file_once-Once :
      (may_make : Text → Disk → Bool) (d : Disk) → Once d (copy_file_once may_make a temporary d)
  unfolding copy_file_once
  copy_file_once-Once may_make d = by_opened a.opened refl
    where
      by_made :
          (before : Stat)
          → a.opened ≡ some before
          → (r : Bool × Disk) → Grows d r.1
          → Once d (
              if not r.0 || is_some (r.1 temporary) || not a.may_create
              then (false, unlink a.unlinks temporary r.1)
              else fill_copy a before temporary r.1)
      by_made before opened (made, e) g = Once-after d e _ (Grows-KeepsBut temporary d e g) (
          if_both (Once e) (not made || is_some (e temporary) || not a.may_create) _ _
            (failed-Once e) (fill_copy-Once before e opened))

      by_opened :
          (o : Option Stat)
          → a.opened ≡ o
          → Once d (elim o [
            | none ↦ (false, unlink a.unlinks temporary d)
            | some before ↦
                let (made, e) = prepare_destination may_make temporary d in
                if not made || is_some (e temporary) || not a.may_create
                then (false, unlink a.unlinks temporary e)
                else fill_copy a before temporary e
          ])
      by_opened none o = failed-Once d
      by_opened (some before) o =
          by_made before o (prepare_destination may_make temporary d)
            (prepare_destination-Grows may_make temporary d)
