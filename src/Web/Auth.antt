-- ===== src/Web/Auth.antt =====
-- `syseba_constant_time_equal` and `syseba_http_authorized` of src/web.c.
pub mod Equal
pub mod Laws
use Prim.Native.Nat.{bit_or, bit_xor, max}
use sy_se_ba.Prelude.{
  ℕ, zero, suc, ◌+◌, ◌%◌, ◌^◌, Bool, true, false, ◌&&◌, ◌||◌, not, Option, none, some, length,
  get_or, drop, take, ltb, ◌==◌, if◌then◌else◌,
}
use sy_se_ba.Prelude.Text.{Text, codes, strcaseeq}

-- The loop over `index`, `rounds` rounds before its end. Past the end of a text a byte is 0.
difference_loop : ℕ → ℕ → Text → Text → ℕ → ℕ
difference_loop zero index first second difference = difference
difference_loop (suc rounds) index first second difference =
    difference_loop rounds (index + 1) first second
      (bit_or difference (bit_xor (get_or first index 0) (get_or second index 0)))

-- The lengths' difference is cut to an `unsigned`.
unfoldable pub constant_time_equal : Text → Text → Bool
unfolding difference_loop
constant_time_equal first second =
    difference_loop (max (length first) (length second)) 0 first second
      (bit_xor (length first) (length second) % 2 ^ 32)
    == 0

-- `strlen(authorization) > 7 && strncasecmp(authorization, "Bearer ", 7) == 0 && ...`
unfoldable pub bearer_matches : Text → Text → Bool
bearer_matches authorization token =
    ltb 7 (length authorization)
    && strcaseeq (take 7 authorization) (codes "Bearer ")
    && constant_time_equal (drop 7 authorization) token

unfoldable pub header_matches : (Text → Text → Bool) → Option Text → Text → Bool
header_matches test none token = false
header_matches test (some value) token = test value token

-- `enabled` and `token` are the app's; the headers are `X-SySeBa-Token` and `Authorization`.
unfoldable pub http_authorized : Bool → Text → Option Text → Option Text → Bool
unfolding header_matches
http_authorized enabled token supplied authorization =
    if not enabled
    then true
    else if header_matches constant_time_equal supplied token
    then true
    else if header_matches bearer_matches authorization token
    then true
    else false
