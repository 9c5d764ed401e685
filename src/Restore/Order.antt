-- ===== src/Restore/Order.antt =====
-- The comparators that `syseba_restore_list` of src/fs.c gives to `qsort`.
use sy_se_ba.Prelude.{
  if_both, ℕ, ◌≡◌, refl, ap, Bool, true, false, [], ◌∷◌, ltb, ◌==◌, if◌then◌else◌, Bool-cases, inl,
  inr, arith,
}
use sy_se_ba.Prelude.Text.{Text, codes, streq, to_lower}

-- `syseba_restore_item_t`
pub record Item : Type 0 where
  pub name : Text
  pub path : Text
  pub mtime : Text
  pub size : ℕ
  pub is_directory : Bool
  pub destination_exists : Bool

-- The sign of an `int`.
pub data Sign : Type 0 where
  negative zero_sign positive : Sign

abbrev pub flip : Sign → Sign
flip negative = positive
flip zero_sign = zero_sign
flip positive = negative

-- Two numbers; then two texts by their bytes, seen through a function.
unfoldable pub number_compare : ℕ → ℕ → Sign → Sign
number_compare m n equal = if m == n then equal else if ltb m n then negative else positive

unfoldable pub text_compare : (ℕ → ℕ) → Text → Text → Sign
unfolding number_compare
text_compare f [] [] = zero_sign
text_compare f [] (d ∷ t) = negative
text_compare f (c ∷ s) [] = positive
text_compare f (c ∷ s) (d ∷ t) = number_compare (f c) (f d) (text_compare f s t)

-- `syseba_restore_item_compare_common`, and the rest of a comparator if it is 0.
unfoldable pub common_first : Item → Item → Sign → Sign
common_first a b rest = elim a.is_directory [
  | true ↦ elim b.is_directory [ true ↦ rest | false ↦ negative ]
  | false ↦ elim b.is_directory [ true ↦ positive | false ↦ rest ]
]

-- `strcasecmp` and `strcmp`
unfoldable pub compare_name_asc : Item → Item → Sign
compare_name_asc a b = common_first a b (text_compare to_lower a.name b.name)

unfoldable pub compare_name_desc : Item → Item → Sign
unfolding compare_name_asc
compare_name_desc a b = common_first a b (flip (compare_name_asc a b))

unfoldable pub compare_mtime_asc : Item → Item → Sign
compare_mtime_asc a b = common_first a b (text_compare (λ c. c) a.mtime b.mtime)

unfoldable pub compare_mtime_desc : Item → Item → Sign
compare_mtime_desc a b = common_first a b (flip (text_compare (λ c. c) a.mtime b.mtime))

unfoldable pub compare_size_asc : Item → Item → Sign
unfolding compare_name_asc
compare_size_asc a b = common_first a b (number_compare a.size b.size (compare_name_asc a b))

-- `first->size > second->size ? -1 : 1`
unfoldable pub compare_size_desc : Item → Item → Sign
unfolding compare_name_asc
compare_size_desc a b = common_first a b (
    if a.size == b.size
    then compare_name_asc a b
    else if ltb b.size a.size
    then negative
    else positive)

unfoldable pub restore_comparator : Text → Text → Item → Item → Sign
restore_comparator sort direction =
    if streq sort (codes "mtime")
    then (if streq direction (codes "desc") then compare_mtime_desc else compare_mtime_asc)
    else if streq sort (codes "size")
    then (if streq direction (codes "desc") then compare_size_desc else compare_size_asc)
    else if streq direction (codes "desc")
    then compare_name_desc
    else compare_name_asc

number_compare-flip :
    (m n : ℕ) (x y : Sign) → y ≡ flip x → number_compare n m y ≡ flip (number_compare m n x)
unfolding number_compare
number_compare-flip m n x y h = elim (Bool-cases (m == n)) [
  | inl e ↦ rw (e, back e) h
  | inr e ↦
      rw (e, apart e)
        (elim (Bool-cases (ltb m n)) [
          | inl l ↦ rw (l, above l) refl
          | inr l ↦ rw (l, below e l) refl
        ])
]
  where
    back : m == n ≡ true → n == m ≡ true
    back e = ground arith

    apart : m == n ≡ false → n == m ≡ false
    apart e = ground arith

    above : ltb m n ≡ true → ltb n m ≡ false
    above l = ground arith

    below : m == n ≡ false → ltb m n ≡ false → ltb n m ≡ true
    below e l = ground arith

text_compare-flip : (f : ℕ → ℕ) (s t : Text) → text_compare f t s ≡ flip (text_compare f s t)
unfolding text_compare
text_compare-flip f [] [] = refl
text_compare-flip f [] (d ∷ t) = refl
text_compare-flip f (c ∷ s) [] = refl
text_compare-flip f (c ∷ s) (d ∷ t) =
    number_compare-flip (f c) (f d) (text_compare f s t) (text_compare f t s)
      (text_compare-flip f s t)

common_first-flip :
    (a b : Item) (x y : Sign) → y ≡ flip x → common_first b a y ≡ flip (common_first a b x)
unfolding common_first
common_first-flip a b x y h = by_kinds a.is_directory b.is_directory
  where
    by_kinds :
        (p q : Bool)
        → (elim q [
          | true ↦ elim p [ true ↦ y | false ↦ negative ]
          | false ↦ elim p [ true ↦ positive | false ↦ y ]
        ])
          ≡ flip (elim p [
            | true ↦ elim q [ true ↦ x | false ↦ negative ]
            | false ↦ elim q [ true ↦ positive | false ↦ x ]
          ])
    by_kinds true true = h
    by_kinds true false = refl
    by_kinds false true = refl
    by_kinds false false = h

flip-flip : (x : Sign) → flip (flip x) ≡ x
flip-flip negative = refl
flip-flip zero_sign = refl
flip-flip positive = refl

compare_name_asc-flip : (a b : Item) → compare_name_asc b a ≡ flip (compare_name_asc a b)
unfolding compare_name_asc
compare_name_asc-flip a b =
    common_first-flip a b (text_compare to_lower a.name b.name)
      (text_compare to_lower b.name a.name) (text_compare-flip to_lower a.name b.name)

size_desc-flip :
    (m n : ℕ) (x y : Sign)
    → y ≡ flip x
    → (if n == m then y else if ltb m n then negative else positive)
      ≡ flip (if m == n then x else if ltb n m then negative else positive)
size_desc-flip m n x y h = elim (Bool-cases (m == n)) [
  | inl e ↦ rw (e, back e) h
  | inr e ↦
      rw (e, apart e)
        (elim (Bool-cases (ltb m n)) [
          | inl l ↦ rw (l, above l) refl
          | inr l ↦ rw (l, below e l) refl
        ])
]
  where
    back : m == n ≡ true → n == m ≡ true
    back e = ground arith

    apart : m == n ≡ false → n == m ≡ false
    apart e = ground arith

    above : ltb m n ≡ true → ltb n m ≡ false
    above l = ground arith

    below : m == n ≡ false → ltb m n ≡ false → ltb n m ≡ true
    below e l = ground arith

-- A comparator that says the opposite when its arguments are swapped, and puts directories first.
pub record IsComparator (compare : Item → Item → Sign) : Type 0 where
  pub opposite : (a b : Item) → compare b a ≡ flip (compare a b)
  pub directories_first :
      (a b : Item) → a.is_directory ≡ true → b.is_directory ≡ false → compare a b ≡ negative

before :
    (a b : Item) (x : Sign)
    → a.is_directory ≡ true
    → b.is_directory ≡ false
    → common_first a b x ≡ negative
unfolding common_first
before a b x h k = rw (h, k) refl

-- The comparator that syseba_restore_list picks, for any sort and direction, gives the opposite
-- sign when its arguments are swapped and puts directories before files.
pub restore_comparator-IsComparator :
    (sort direction : Text) → IsComparator (restore_comparator sort direction)
unfolding restore_comparator compare_name_desc compare_mtime_asc compare_mtime_desc compare_size_asc
    compare_size_desc
restore_comparator-IsComparator sort direction =
    if_both IsComparator (streq sort (codes "mtime")) _ _
      (if_both IsComparator (streq direction (codes "desc")) compare_mtime_desc compare_mtime_asc
        (record {
          opposite = λ a b.
              common_first-flip a b _ _ (ap flip (text_compare-flip (λ c. c) a.mtime b.mtime));
          directories_first = λ a b. before a b _;
        })
        (record {
          opposite = λ a b. common_first-flip a b _ _ (text_compare-flip (λ c. c) a.mtime b.mtime);
          directories_first = λ a b. before a b _;
        }))
      (if_both IsComparator (streq sort (codes "size")) _ _
        (if_both IsComparator (streq direction (codes "desc")) compare_size_desc compare_size_asc
          (record {
            opposite = λ a b.
                common_first-flip a b _ _
                  (size_desc-flip a.size b.size _ _ (compare_name_asc-flip a b));
            directories_first = λ a b. before a b _;
          })
          (record {
            opposite = λ a b.
                common_first-flip a b _ _
                  (number_compare-flip a.size b.size _ _ (compare_name_asc-flip a b));
            directories_first = λ a b. before a b _;
          }))
        (if_both IsComparator (streq direction (codes "desc")) compare_name_desc compare_name_asc
          (record {
            opposite = λ a b. common_first-flip a b _ _ (ap flip (compare_name_asc-flip a b));
            directories_first = λ a b. before a b _;
          })
          (record {
            opposite = compare_name_asc-flip;
            directories_first = λ a b h k.
                unfold compare_name_asc in before a b (text_compare to_lower a.name b.name) h k;
          })))
