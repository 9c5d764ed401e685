-- ===== src/Web/Auth/Laws.antt =====
-- Who gets past the token check.
use sy_se_ba.Prelude.{
  ℕ, zero, suc, sym, ap, ◌∙◌, subst, ◌&&◌, Bool-cases, and-split, ltb, ltb→lt, length-take,
  length-drop, length-append, take-append-drop, take-length_append, drop-length_append, ◌<◌, ◌≡◌,
  refl, ◌↔◌, ◌⊎◌, inl, inr, Bool, true, Option, none, some, [], ◌∷◌, ◌++◌, length, take, drop,
  arith,
}
use sy_se_ba.Prelude.Text.{Text, codes, strcaseeq}
use sy_se_ba.Web.Auth.{header_matches, constant_time_equal, bearer_matches, http_authorized}
use sy_se_ba.Web.Auth.Equal.{NulFree, constant_time_equal_iff, constant_time_equal_self}

drop-NulFree : (n : ℕ) (s : Text) → NulFree s → NulFree (drop n s)
drop-NulFree zero s h = h
drop-NulFree (suc n) [] h = tt
drop-NulFree (suc n) (c ∷ s) h = drop-NulFree n s h.1

-- The header `Authorization` names the token behind the word Bearer and one space, in any case.
pub record IsBearer (token authorization : Text) : Type 0 where
  pub scheme : Text
  pub split : authorization ≡ scheme ++ token
  pub word : strcaseeq scheme (codes "Bearer ") ≡ true
  pub width : length scheme ≡ 7
  pub present : 0 < length token

-- What a client must present.
abbrev pub Presents : Text → Option Text → Option Text → Type 0
Presents token supplied authorization =
    (supplied ≡ some token) ⊎ ((value : Text) × (authorization ≡ some value) × IsBearer token value)

bearer→IsBearer :
    (value token : Text)
    → NulFree token
    → NulFree value
    → bearer_matches value token ≡ true
    → IsBearer token value
unfolding bearer_matches
bearer→IsBearer value token p q h =
    let (first, same) = and-split (ltb 7 (length value) && _) _ h in
    let (long, word) = and-split (ltb 7 (length value)) _ first in
    let e = (constant_time_equal_iff (drop 7 value) token (drop-NulFree 7 value q) p).0 same in
    record {
      scheme = take 7 value;
      split = sym (take-append-drop 7 value) ∙ ap (◌++◌ (take 7 value)) e;
      word = word;
      width = omega (arith, length-take 7 value, ltb→lt 7 (length value) long);
      present = omega (arith, ap length e, length-drop 7 value, ltb→lt 7 (length value) long);
    }

bearer_append :
    (scheme token : Text)
    → strcaseeq scheme (codes "Bearer ") ≡ true
    → 7 ≡ length scheme
    → 0 < length token
    → bearer_matches (scheme ++ token) token ≡ true
unfolding bearer_matches
bearer_append scheme token word width present =
    rw (width, take-length_append, drop-length_append, word, constant_time_equal_self)
      (ground (arith, length-append scheme token))

IsBearer→bearer : (value token : Text) → IsBearer token value → bearer_matches value token ≡ true
IsBearer→bearer value token b =
    rw b.split (bearer_append b.scheme token b.word (sym b.width) b.present)

abbrev pub HeaderNulFree : Option Text → Type 0
HeaderNulFree none = Unit
HeaderNulFree (some value) = NulFree value

header_matches_iff :
    (test : Text → Text → Bool) (header : Option Text) (token : Text)
    → (header_matches test header token ≡ true)
      ↔ ((value : Text) × (header ≡ some value) × (test value token ≡ true))
unfolding header_matches
header_matches_iff test none token = (λ h. cc, λ (v, e, h). cc)
header_matches_iff test (some value) token = (λ h. (value, refl, h), λ (v, e, h). ground arith)

-- With authentication on, and with token and headers as C strings without NUL, a request is
-- authorized exactly if its X-SySeBa-Token header is the token, or its Authorization header is
-- the word Bearer and a space, in any case, followed by the token, which is not empty.
pub http_authorized_iff :
    (token : Text) (supplied authorization : Option Text)
    → NulFree token
    → HeaderNulFree supplied
    → HeaderNulFree authorization
    → (http_authorized true token supplied authorization ≡ true)
      ↔ Presents token supplied authorization
unfolding http_authorized
http_authorized_iff token supplied authorization p q r = (presented, passes)
  where
    by_bearer :
        header_matches bearer_matches authorization token ≡ true
        → Presents token supplied authorization
    by_bearer h =
        let (value, e, same) = (header_matches_iff bearer_matches authorization token).0 h in
        inr (value, e, bearer→IsBearer value token p (subst HeaderNulFree e r) same)

    by_header :
        header_matches constant_time_equal supplied token ≡ true
        → Presents token supplied authorization
    by_header h =
        let (value, e, same) = (header_matches_iff constant_time_equal supplied token).0 h in
        let equal = (constant_time_equal_iff value token (subst HeaderNulFree e q) p).0 same in
        inl (e ∙ ap some equal)

    presented :
        http_authorized true token supplied authorization ≡ true
        → Presents token supplied authorization
    presented h = elim (Bool-cases (header_matches constant_time_equal supplied token)) [
      | inl a ↦ by_header a
      | inr a ↦ elim (Bool-cases (header_matches bearer_matches authorization token)) [
        | inl b ↦ by_bearer b
        | inr b ↦ ground arith
      ]
    ]

    passes :
        Presents token supplied authorization
        → http_authorized true token supplied authorization ≡ true
    passes (inl e) = rw (
        (header_matches_iff constant_time_equal supplied token).1
          (token, e, constant_time_equal_self token))
    passes (inr (value, e, b)) =
        let hit =
          (header_matches_iff bearer_matches authorization token).1
            (value, e, IsBearer→bearer value token b) in
        rw hit (elim (Bool-cases (header_matches constant_time_equal supplied token)) [
          | inl a ↦ rw a
          | inr a ↦ rw a
        ])
