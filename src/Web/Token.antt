-- ===== src/Web/Token.antt =====
-- Where the Web token comes from: `syseba_web_load_token` of src/web.c and what it calls.
pub mod Laws
use sy_se_ba.Prelude.{
  ℕ, ◌+◌, ◌-◌, ◌/◌, ◌%◌, ◌≤◌, Bool, true, false, ◌&&◌, ◌||◌, not, Option, none, some, List, [], ◌∷◌,
  length, all, ltb, leb, ◌==◌, if◌then◌else◌,
}
use sy_se_ba.Prelude.Text.{Text, codes, streq, fits, c_string}
use sy_se_ba.Trim.{trim}

abbrev pub token_min : ℕ
token_min = 16

abbrev pub token_max : ℕ
token_max = 256

unfoldable pub is_token_byte : ℕ → Bool
is_token_byte value = not (ltb value 0x21 || ltb 0x7e value)

unfoldable pub web_token_valid : Text → Bool
unfolding is_token_byte
web_token_valid token =
    if ltb (length token) token_min || leb token_max (length token)
    then false
    else all is_token_byte token

unfoldable pub web_host_is_loopback : Text → Bool
web_host_is_loopback host =
    streq host (codes "127.0.0.1")
    || streq host (codes "::1")
    || streq host (codes "[::1]")
    || streq host (codes "localhost")

-- The file's bytes if `syseba_open_regular_read` and `fread` succeed on it. The buffer takes
-- `SYSEBA_TOKEN_MAX + 31` bytes, and a file that fills it is refused: `feof` is set only by a
-- read that comes short.
unfoldable pub web_read_token : Option (List ℕ) → Option Text
unfolding c_string
web_read_token none = none
web_read_token (some content) =
    if leb (token_max + 31) (length content)
    then none
    else let trimmed = trim (c_string content) in
      if not (web_token_valid trimmed) || not (fits token_max trimmed) then none else some trimmed

-- "%02x" of one byte.
unfoldable pub hex_digit : ℕ → ℕ
hex_digit n = if ltb n 10 then b'0' + n else b'a' + (n - 10)

unfoldable pub hex : List ℕ → Text
unfolding hex_digit
hex [] = []
hex (b ∷ rest) = hex_digit (b / 16) ∷ hex_digit (b % 16) ∷ hex rest

-- The 32 random bytes, if `syseba_random_bytes` delivers them, and whether the file is written,
-- secured and moved into its place.
unfoldable pub web_create_token : Option (List ℕ) → Bool → Option Text
unfolding hex
web_create_token none stored = none
web_create_token (some random) stored = if stored then some (hex random) else none

pub data TokenSource : Type 0 where
  disabled argument environment file generated_file : TokenSource

pub data Outcome : Type 0 where
  ok : Bool → Text → TokenSource → Outcome
  err_invalid err_permission err : Outcome

-- What the token's loading depends on: options, environment, files and the operating system.
pub record TokenInputs : Type 0 where
  pub no_web_auth : Bool
  pub web_host : Text
  pub explicit_token : Text
  pub environment_token : Option Text
  pub token_file : Option (List ℕ)
  -- `errno == ENOENT` when the token file could not be read
  pub file_missing : Bool
  pub secured : Bool
  pub random : Option (List ℕ)
  pub stored : Bool

unfoldable pub is_set : Text → Bool
is_set [] = false
is_set (c ∷ s) = true

-- `SYSEBA_WEB_TOKEN`, if it is set and not empty.
unfoldable pub set_token : Option Text → Text
set_token none = []
set_token (some token) = token

unfoldable pub load_stored_token : TokenInputs → Outcome
load_stored_token i = elim (web_read_token i.token_file) [
  | some token ↦ if not i.secured then err_permission else ok true token file
  | none ↦ if not i.file_missing then err else elim (web_create_token i.random i.stored) [
    | none ↦ err
    | some token ↦ ok true token generated_file
  ]
]

unfoldable pub web_load_token : TokenInputs → Outcome
unfolding is_set set_token load_stored_token
web_load_token i =
    if i.no_web_auth
    then (if not (web_host_is_loopback i.web_host) then err_invalid else ok false [] disabled)
    else if is_set i.explicit_token
    then (if not (web_token_valid i.explicit_token) || not (fits token_max i.explicit_token)
        then err_invalid
        else ok true i.explicit_token argument)
    else if is_set (set_token i.environment_token)
    then (if not (web_token_valid (set_token i.environment_token))
          || not (fits token_max (set_token i.environment_token))
        then err_invalid
        else ok true (set_token i.environment_token) environment)
    else load_stored_token i
