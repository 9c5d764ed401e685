-- ===== src/Trim/Laws.antt =====
-- What trimming leaves: a text with no space at either end, unchanged if it had none.
use sy_se_ba.Prelude.{ℕ, ◌≡◌, refl, false, [], ◌∷◌, arith}
use sy_se_ba.Prelude.{if◌then◌else◌, Bool-cases, inl, inr, ◌&&◌}
use sy_se_ba.Prelude.Text.{Text, is_space}
use sy_se_ba.Trim.{trim_start, trim_end, trim, is_empty}

-- The first byte, and the last one, are not spaces.
abbrev pub StartsSolid : Text → Type 0
StartsSolid [] = Unit
StartsSolid (c ∷ s) = is_space c ≡ false

abbrev pub EndsSolid : Text → Type 0
EndsSolid [] = Unit
EndsSolid (c ∷ []) = is_space c ≡ false
EndsSolid (c ∷ d ∷ s) = EndsSolid (d ∷ s)

pub record IsTrimmed (s : Text) : Type 0 where
  pub front : StartsSolid s
  pub back : EndsSolid s

trim_start-StartsSolid : (s : Text) → StartsSolid (trim_start s)
unfolding trim_start
trim_start-StartsSolid [] = tt
trim_start-StartsSolid (c ∷ s) = ground (arith, trim_start-StartsSolid s)

EndsSolid-cons :
    (c : ℕ) (t : Text) → EndsSolid t → EndsSolid (if is_empty t && is_space c then [] else c ∷ t)
unfolding is_empty
EndsSolid-cons c [] h = elim (Bool-cases (is_space c)) [ inl e ↦ rw e tt | inr e ↦ rw e e ]
EndsSolid-cons c (d ∷ t) h = h

trim_end-EndsSolid : (s : Text) → EndsSolid (trim_end s)
unfolding trim_end
trim_end-EndsSolid [] = tt
trim_end-EndsSolid (c ∷ s) = EndsSolid-cons c (trim_end s) (trim_end-EndsSolid s)

trim_end_of_solid : (s : Text) → EndsSolid s → trim_end s ≡ s
unfolding trim_end
trim_end_of_solid [] h = refl
trim_end_of_solid (c ∷ []) h = ground arith
trim_end_of_solid (c ∷ d ∷ s) h = ground (arith, trim_end_of_solid (d ∷ s) h)

trim_end-StartsSolid : (s : Text) → StartsSolid s → StartsSolid (trim_end s)
unfolding trim_end
trim_end-StartsSolid [] h = tt
trim_end-StartsSolid (c ∷ s) h = ground arith

-- A trimmed text comes back as it is.
pub trim_of_trimmed : (s : Text) → IsTrimmed s → trim s ≡ s
unfolding trim
trim_of_trimmed [] v = refl
trim_of_trimmed (c ∷ s) v = rw v.front (trim_end_of_solid (c ∷ s) v.back)

pub trim-IsTrimmed : (s : Text) → IsTrimmed (trim s)
unfolding trim
trim-IsTrimmed s = record {
  front = trim_end-StartsSolid _ (trim_start-StartsSolid s);
  back = trim_end-EndsSolid (trim_start s);
}
