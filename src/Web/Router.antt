-- ===== src/Web/Router.antt =====
-- `syseba_http_handler` of src/web.c: which handler serves a request.
use sy_se_ba.Prelude.{
  ◌≡◌, inl, inr, Bool, true, false, ◌&&◌, ◌||◌, not, Option, none, some, arith, if◌then◌else◌,
  Bool-cases,
}
use sy_se_ba.Prelude.Text.{Text, codes, streq, streq→eq}
use sy_se_ba.Web.Auth.{http_authorized}

-- The handler that answers, or the error that is sent. `script` and `logo` are embedded assets.
pub data Reply : Type 0 where
  index script logo auth_required invalid_method unauthorized not_found : Reply
  status logs config_get config_state config_post : Reply
  restore_list restore_info restore_post download restart : Reply

pub record Request : Type 0 where
  pub method : Text
  pub local_uri : Option Text
  pub request_uri : Text
  pub token_header : Option Text
  pub authorization : Option Text

-- `request->local_uri == NULL ? request->request_uri : request->local_uri`
unfoldable pub request_path : Request → Text
request_path r = elim r.local_uri [ none ↦ r.request_uri | some uri ↦ uri ]

-- The chain of tests behind the token check.
unfoldable pub api_route : Bool → Bool → Text → Reply
api_route get post path =
    if get && streq path (codes "/api/status")
    then status
    else if get && streq path (codes "/api/logs")
    then logs
    else if get && streq path (codes "/api/config")
    then config_get
    else if get && streq path (codes "/api/config/state")
    then config_state
    else if post && streq path (codes "/api/config")
    then config_post
    else if get && streq path (codes "/api/restore")
    then restore_list
    else if get && streq path (codes "/api/restore/info")
    then restore_info
    else if post && streq path (codes "/api/restore")
    then restore_post
    else if get && streq path (codes "/restore/download")
    then download
    else if post && streq path (codes "/api/service/restart")
    then restart
    else not_found

-- `get` and `post` compare the method; `allowed` is `syseba_http_require_auth(...) == 0`.
unfoldable pub route : Bool → Bool → Text → Bool → Reply
route get post path allowed =
    if get && streq path (codes "/")
    then index
    else if get && streq path (codes "/webui.js")
    then script
    else if get && (streq path (codes "/logo") || streq path (codes "/favicon.ico"))
    then logo
    else if get && streq path (codes "/api/auth")
    then auth_required
    else if not get && not post
    then invalid_method
    else if not allowed
    then unauthorized
    else api_route get post path

-- The arguments are the app's `web_auth_enabled` and `web_token`.
unfoldable pub http_handler : Bool → Text → Request → Reply
http_handler enabled token r =
    route (streq r.method (codes "GET")) (streq r.method (codes "POST")) (request_path r)
      (http_authorized enabled token r.token_header r.authorization)

-- What an anonymous client may see.
abbrev pub is_public : Reply → Bool
is_public index = true
is_public script = true
is_public logo = true
is_public auth_required = true
is_public invalid_method = true
is_public unauthorized = true
is_public _ = false

-- What changes the configuration, the source tree or the service.
abbrev pub changes_state : Reply → Bool
changes_state config_post = true
changes_state restore_post = true
changes_state restart = true
changes_state _ = false

route_unauthorized : (get post : Bool) (path : Text) → is_public (route get post path false) ≡ true
unfolding route
route_unauthorized get post path = ground arith

-- Every reply other than the page, its script and logo, the authentication question and the two
-- errors for a wrong method and a missing token goes to an authorized request.
pub http_handler_protected :
    (enabled : Bool) (token : Text) (r : Request)
    → is_public (http_handler enabled token r) ≡ false
    → http_authorized enabled token r.token_header r.authorization ≡ true
unfolding http_handler
http_handler_protected enabled token r h =
    elim (Bool-cases (http_authorized enabled token r.token_header r.authorization)) [
      | inl e ↦ e
      | inr e ↦ ground (
        arith,
        route_unauthorized (streq r.method (codes "GET")) (streq r.method (codes "POST"))
            (request_path r),
      )
    ]

api_route_changes :
    (get post : Bool) (path : Text) → changes_state (api_route get post path) ≡ true → post ≡ true
unfolding api_route
api_route_changes get post path h = ground arith

route_changes :
    (get post : Bool) (path : Text) (allowed : Bool)
    → changes_state (route get post path allowed) ≡ true
    → (post ≡ true) × (allowed ≡ true)
unfolding route
route_changes get post path allowed h = ground (arith, api_route_changes get post path)

-- A request reaches a handler that changes the configuration, restores an item or restarts the
-- service only if its method is POST and it is authorized.
pub http_handler_changes :
    (enabled : Bool) (token : Text) (r : Request)
    → changes_state (http_handler enabled token r) ≡ true
    → (r.method ≡ codes "POST")
      × (http_authorized enabled token r.token_header r.authorization ≡ true)
unfolding http_handler
http_handler_changes enabled token r h =
    let (post, allowed) = route_changes _ _ _ _ h in (streq→eq _ _ post, allowed)
