-- ===== src/Restore/Pages.antt =====
-- The pages of the list that `syseba_restore_list` of src/fs.c returns.
use native.Mathlib.Nat.{div-add-mod', mod-lt, div-le_self}
use sy_se_ba.Prelude.{
  ℕ, zero, suc, ◌+◌, ◌-◌, ◌*◌, ◌/◌, ◌%◌, ◌^◌, ◌≤◌, ◌<◌, ◌≡◌, refl, ap, ap₂, ◌∙◌, sym, Bool, true,
  false, ◌&&◌, List, [], ◌∷◌, ◌++◌, length, take, drop, length-drop, ltb, ◌==◌, ==→eq,
  if◌then◌else◌, Bool-cases, inl, inr, arith,
}

-- The fields of `syseba_restore_listing_t` that say which page it is.
pub record Page {ℓ} (A : Type ℓ) : Type ℓ where
  pub items : List A
  pub total : ℕ
  pub page : ℕ
  pub pages : ℕ
  pub page_size : ℕ
  pub has_previous : Bool
  pub has_next : Bool

-- `SYSEBA_DEFAULT_RESTORE_PAGE` and `SYSEBA_MAX_RESTORE_PAGE`.
unfoldable pub clamp_size : ℕ → ℕ
clamp_size page_size =
    let asked = if page_size == 0 then 100 else page_size in if ltb 250 asked then 250 else asked

-- The number of pages, which is an `unsigned`.
unfoldable pub page_count : ℕ → ℕ → ℕ
page_count total page_size =
    let pages = (total + page_size - 1) / page_size % 2 ^ 32 in if pages == 0 then 1 else pages

unfoldable pub clamp_page : ℕ → ℕ → ℕ
clamp_page page pages =
    let asked = if page == 0 then 1 else page in if ltb pages asked then pages else asked

-- `memmove` brings the page's items to the front, and `count` cuts off the rest.
unfoldable pub select {ℓ} : {A : Type ℓ} → ℕ → ℕ → List A → List A
select page page_size items =
    let offset = (page - 1) * page_size in
    let available = if ltb offset (length items) then length items - offset else 0 in
    let selected = if ltb page_size available then page_size else available in
    take selected (if ltb 0 selected && ltb 0 offset then drop offset items else items)

-- From the sorted items.
unfoldable pub restore_page {ℓ} : {A : Type ℓ} → ℕ → ℕ → List A → Page A
unfolding clamp_size page_count clamp_page select
restore_page page page_size items =
    let size = clamp_size page_size in
    let pages = page_count (length items) size in
    let shown = clamp_page page pages in
    record {
      items = select shown size items;
      total = length items;
      page = shown;
      pages = pages;
      page_size = size;
      has_previous = ltb 1 shown;
      has_next = ltb shown pages;
    }

clamp_size_bounds : (n : ℕ) → (1 ≤ clamp_size n) × (clamp_size n ≤ 250)
unfolding clamp_size
clamp_size_bounds n = (ground arith, ground arith)

page_count_lem :
    (total size : ℕ)
    → 1 ≤ size
    → total + 250 < 2 ^ 32
    → size ≤ 250
    → (total ≤ page_count total size * size) × (1 ≤ page_count total size)
unfolding page_count
page_count_lem total size low small high =
    let q = (total + size - 1) / size in
    let covers : total ≤ q * size =
      omega
        (arith, div-add-mod' (total + size - 1) size, mod-lt (total + size - 1) (below size low)) in
    let fits : q % 2 ^ 32 ≡ q = omega (arith, div-le_self (total + size - 1) size) in
    by_count q covers fits
  where
    below : (size : ℕ) → 1 ≤ size → zero < size
    below size h = omega arith

    by_count :
        (q : ℕ)
        → total ≤ q * size
        → q % 2 ^ 32 ≡ q
        → let pages = if q % 2 ^ 32 == 0 then 1 else q % 2 ^ 32 in
          (total ≤ pages * size) × (1 ≤ pages)
    by_count q covers fits = elim (Bool-cases (q == 0)) [
      | inl e ↦ rw (fits, e) (omega (arith, covers, zero_product (==→eq q 0 e)), omega arith)
      | inr e ↦ rw (fits, e) (covers, ground (arith, e))
    ]
      where
        zero_product : q ≡ 0 → q * size ≡ 0
        zero_product h = ap (λ k. k * size) h ∙ omega arith

module _ {ℓ} {A : Type ℓ} where
  take_long : (n : ℕ) (xs : List A) → length xs ≤ n → take n xs ≡ xs
  take_long zero [] h = refl
  take_long zero (x ∷ xs) h = absurd (omega arith)
  take_long (suc n) [] h = refl
  take_long (suc n) (x ∷ xs) h = ap (◌∷◌ x) (take_long n xs (omega arith))

  drop_long : (n : ℕ) (xs : List A) → length xs ≤ n → drop n xs ≡ []
  drop_long zero [] h = refl
  drop_long zero (x ∷ xs) h = absurd (omega arith)
  drop_long (suc n) [] h = refl
  drop_long (suc n) (x ∷ xs) h = drop_long n xs (omega arith)

  empty_take : (n : ℕ) → ◌≡◌ {A = List A} (take n []) []
  empty_take zero = refl
  empty_take (suc n) = refl

  take-add : (m n : ℕ) (xs : List A) → take (m + n) xs ≡ take m xs ++ take n (drop m xs)
  take-add zero n xs = ap (λ k. take k xs) zero_left
    where
      zero_left : zero + n ≡ n
      zero_left = omega arith
  take-add (suc m) n [] = empty_take (suc m + n) ∙ sym (empty_take n)
  take-add (suc m) n (x ∷ xs) = ap (λ k. take k (x ∷ xs)) suc_left ∙ ap (◌∷◌ x) (take-add m n xs)
    where
      suc_left : suc m + n ≡ suc (m + n)
      suc_left = omega arith

  -- A page has the items of its range.
  select_lem :
      (page size : ℕ) (xs : List A)
      → 1 ≤ size
      → select page size xs ≡ take size (drop ((page - 1) * size) xs)
  unfolding select
  select_lem page size xs h = elim (Bool-cases (ltb ((page - 1) * size) (length xs))) [
    | inr past ↦
        rw (past, no_room)
          (sym (
            ap (take size) (drop_long ((page - 1) * size) xs (ground (arith, past)))
            ∙ empty_take size))
    | inl inside ↦ rw inside (by_available ((page - 1) * size) (ground (arith, inside)))
  ]
    where
      no_room : ltb size 0 ≡ false
      no_room = ground arith

      by_offset :
          (offset selected : ℕ)
          → 0 < selected
          → take selected (if ltb 0 selected && ltb 0 offset then drop offset xs else xs)
            ≡ take selected (drop offset xs)
      by_offset zero (suc selected) k = same (ltb 0 (suc selected) && ltb 0 0)
        where
          same :
              (b : Bool)
              → take (suc selected) (if b then drop 0 xs else xs) ≡ take (suc selected) (drop 0 xs)
          same true = refl
          same false = refl
      by_offset (suc offset) (suc selected) k =
          ap (λ b. take (suc selected) (if b then drop (suc offset) xs else xs)) moved
        where
          moved : ltb 0 (suc selected) && ltb 0 (suc offset) ≡ true
          moved = ground arith
      by_offset offset zero k = absurd (omega arith)

      by_available :
          (offset : ℕ)
          → offset < length xs
          → let selected = if ltb size (length xs - offset) then size else length xs - offset in
            take selected (if ltb 0 selected && ltb 0 offset then drop offset xs else xs)
            ≡ take size (drop offset xs)
      by_available offset k = elim (Bool-cases (ltb size (length xs - offset))) [
        | inl long ↦ rw long (by_offset offset size (omega arith))
        | inr short ↦ rw short (
            by_offset offset (length xs - offset) (omega arith)
            ∙ take_long (length xs - offset) (drop offset xs) (omega (arith, length-drop offset xs))
            ∙ sym (take_long size (drop offset xs) (ground (arith, length-drop offset xs, short))))
      ]

  -- The items of the pages up to one, as a client that turns them gets them.
  unfoldable pub turned : ℕ → ℕ → List A → List A
  turned zero page_size items = []
  turned (suc n) page_size items =
      turned n page_size items ++ (restore_page (suc n) page_size items).items

  shown_page :
      (n page_size : ℕ) (xs : List A)
      → n < page_count (length xs) (clamp_size page_size)
      → (restore_page (suc n) page_size xs).items
        ≡ take (clamp_size page_size) (drop (n * clamp_size page_size) xs)
  unfolding restore_page clamp_page
  shown_page n page_size xs h =
      ap (λ p. select p (clamp_size page_size) xs)
        (shown n (page_count (length xs) (clamp_size page_size)) h)
      ∙ select_lem (suc n) (clamp_size page_size) xs (clamp_size_bounds page_size).0
      ∙ ap (λ k. take (clamp_size page_size) (drop (k * clamp_size page_size) xs)) pred
    where
      pred : suc n - 1 ≡ n
      pred = omega arith

      shown :
          (n pages : ℕ)
          → n < pages
          → let asked = if suc n == 0 then 1 else suc n in
            (if ltb pages asked then pages else asked) ≡ suc n
      shown n pages h = ground arith

  turned-take :
      (n page_size : ℕ) (xs : List A)
      → n ≤ page_count (length xs) (clamp_size page_size)
      → turned n page_size xs ≡ take (n * clamp_size page_size) xs
  unfolding turned
  turned-take zero page_size xs h = ap (λ k. take k xs) none_yet
    where
      none_yet : 0 ≡ zero * clamp_size page_size
      none_yet = omega arith
  turned-take (suc n) page_size xs h =
      ap₂ ◌++◌ (turned-take n page_size xs (omega arith)) (shown_page n page_size xs (omega arith))
      ∙ sym (take-add (n * clamp_size page_size) (clamp_size page_size) xs)
      ∙ ap (λ k. take k xs) one_more
    where
      one_more : n * clamp_size page_size + clamp_size page_size ≡ suc n * clamp_size page_size
      one_more = omega arith

  -- For fewer than 2^32 - 250 items, the pages 1 to pages of syseba_restore_list, one after the
  -- other, hold the sorted items, each once and in order, whatever page size is asked for.
  pub turned-restore_page :
      (page_size : ℕ) (xs : List A)
      → length xs + 250 < 2 ^ 32
      → turned (restore_page 1 page_size xs).pages page_size xs ≡ xs
  unfolding restore_page
  turned-restore_page page_size xs small =
      let (low, high) = clamp_size_bounds page_size in
      let (covers, _) = page_count_lem (length xs) (clamp_size page_size) low small high in
      turned-take (page_count (length xs) (clamp_size page_size)) page_size xs (omega arith)
      ∙ take_long (page_count (length xs) (clamp_size page_size) * clamp_size page_size) xs covers
