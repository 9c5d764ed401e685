-- ===== src/Tests/WebRuns.antt =====
-- The web server's decisions at fixed inputs.
use sy_se_ba.Prelude.{ℕ, zero, suc, ◌≡◌, ◌↔◌, refl, true, false, none, some, [], replicate, arith}
use sy_se_ba.Prelude.Text.{codes, streq}
use sy_se_ba.Web.Auth.{http_authorized}
use sy_se_ba.Web.Auth.Laws.{Presents, http_authorized_iff}
use sy_se_ba.Web.Router.{
  Request, Reply, request_path, route, api_route, http_handler, http_handler_protected,
  http_handler_changes,
}
use sy_se_ba.Web.Token.{
  hex, web_create_token, web_read_token, web_host_is_loopback, TokenInputs, web_load_token,
  load_stored_token, is_set, set_token, TokenSource, Outcome,
}
use sy_se_ba.Web.Token.Laws.{IsSafe, web_load_token-IsSafe, AllBytes}

abbrev open_request : Request
open_request = record {
  method = codes "POST";
  local_uri = none;
  request_uri = codes "/api/restore";
  token_header = none;
  authorization = none;
}

served : http_handler false [] open_request ≡ Reply.restore_post
unfolding http_handler route api_route request_path http_authorized streq
served = refl

http_authorized_iff_example :
    (http_authorized true (codes "ab") (some (codes "ab")) none ≡ true)
    ↔ Presents (codes "ab") (some (codes "ab")) none
http_authorized_iff_example =
    http_authorized_iff (codes "ab") (some (codes "ab")) none (omega arith, (omega arith, _))
      (omega arith, (omega arith, _)) _

http_handler_protected_example : http_authorized false [] none none ≡ true
unfolding http_handler route api_route request_path http_authorized streq
http_handler_protected_example = http_handler_protected false [] open_request refl

http_handler_changes_example :
    (codes "POST" ≡ codes "POST") × (http_authorized false [] none none ≡ true)
unfolding http_handler route api_route request_path http_authorized streq
http_handler_changes_example = http_handler_changes false [] open_request refl

abbrev fresh_inputs : TokenInputs
fresh_inputs = record {
  no_web_auth = false;
  web_host = codes "0.0.0.0";
  explicit_token = [];
  environment_token = none;
  token_file = none;
  file_missing = true;
  secured = true;
  random = some (replicate 32 0xa5);
  stored = true;
}

generated :
    web_load_token fresh_inputs
    ≡ Outcome.ok true (hex (replicate 32 0xa5)) TokenSource.generated_file
unfolding web_load_token is_set set_token load_stored_token web_read_token web_create_token
generated = refl

web_load_token-IsSafe_example :
    IsSafe (web_host_is_loopback (codes "0.0.0.0")) (web_load_token fresh_inputs)
web_load_token-IsSafe_example = web_load_token-IsSafe fresh_inputs (refl, bytes 32)
  where
    bytes : (n : ℕ) → AllBytes (replicate n 0xa5)
    bytes zero = _
    bytes (suc n) = (omega arith, bytes n)
