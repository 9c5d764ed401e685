-- ===== src/Web/Token/Laws.antt =====
-- Every token that the server starts with is valid, and it goes without one on loopback only.
use sy_se_ba.Prelude.{
  ℕ, ◌*◌, ◌/◌, ◌%◌, ◌<◌, ◌≡◌, refl, Bool, true, false, Option, none, some, List, [], ◌∷◌, length,
  all, All, arith, Option-cases, inl, inr,
}
use sy_se_ba.Prelude.Text.{Text}
use sy_se_ba.Web.Token.{
  is_token_byte, web_token_valid, web_host_is_loopback, web_read_token, hex_digit, hex,
  web_create_token, Outcome, ok, TokenInputs, load_stored_token, web_load_token,
}

hex_digit-token : (n : ℕ) → n < 16 → is_token_byte (hex_digit n) ≡ true
unfolding hex_digit is_token_byte
hex_digit-token n h = ground arith

abbrev pub AllBytes : List ℕ → Type 0
AllBytes = All (λ b. b < 256)

hex-token : (bs : List ℕ) → AllBytes bs → all is_token_byte (hex bs) ≡ true
unfolding hex
hex-token [] h = refl
hex-token (b ∷ bs) (lt, h) =
    rw (hex_digit-token (b / 16) (omega arith), hex_digit-token (b % 16) (omega arith))
      (hex-token bs h)

length-hex : (bs : List ℕ) → length (hex bs) ≡ 2 * length bs
unfolding hex
length-hex [] = omega arith
length-hex (b ∷ bs) = omega (arith, length-hex bs)

-- The random bytes are as many as the buffer holds.
abbrev pub RandomFills : Option (List ℕ) → Type 0
RandomFills none = Unit
RandomFills (some bs) = (length bs ≡ 32) × AllBytes bs

create_token-valid :
    (random : Option (List ℕ)) (stored : Bool) (token : Text)
    → RandomFills random
    → web_create_token random stored ≡ some token
    → web_token_valid token ≡ true
unfolding web_create_token web_token_valid
create_token-valid none stored token f e = cc
create_token-valid (some bs) stored token (n, f) e = ground (arith, hex-token bs f, length-hex bs)

read_token-valid :
    (content : Option (List ℕ)) (token : Text)
    → web_read_token content ≡ some token
    → web_token_valid token ≡ true
unfolding web_read_token
read_token-valid none token e = cc
read_token-valid (some content) token e = ground arith

-- What a start of the server may rely on.
abbrev pub IsSafe : Bool → Outcome → Type 0
IsSafe loopback (ok true token source) = web_token_valid token ≡ true
IsSafe loopback (ok false token source) = loopback ≡ true
IsSafe loopback _ = Unit

load_stored_token-IsSafe :
    (i : TokenInputs) (loopback : Bool)
    → RandomFills i.random
    → IsSafe loopback (load_stored_token i)
unfolding load_stored_token
load_stored_token-IsSafe i loopback f = elim (Option-cases (web_read_token i.token_file)) [
  | inl e ↦ elim (Option-cases (web_create_token i.random i.stored)) [
    | inl none_made ↦ ground arith
    | inr (token, made) ↦ ground (arith, create_token-valid i.random i.stored token f made)
  ]
  | inr (token, e) ↦ ground (arith, read_token-valid i.token_file token e)
]

-- If loading the token succeeds with authentication on, the token has 16 to 255 bytes from 0x21
-- to 0x7e, wherever it comes from; if it succeeds with authentication off, the host is a loopback
-- address. The random source, where it delivers, delivers 32 bytes.
pub web_load_token-IsSafe :
    (i : TokenInputs)
    → RandomFills i.random
    → IsSafe (web_host_is_loopback i.web_host) (web_load_token i)
unfolding web_load_token
web_load_token-IsSafe i f =
    ground (arith, load_stored_token-IsSafe i (web_host_is_loopback i.web_host) f)
