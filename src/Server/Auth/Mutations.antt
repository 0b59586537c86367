-- ===== src/Server/Auth/Mutations.antt =====
-- server/mutation-routes.ts: which check a request to dispatch or to approve must pass.
use micro_agent_protocol.Base.{
  ℕ, Option, none, Bool, not, ◌&&◌, ◌||◌, if◌then◌else◌, or_else, Result, ok,
}
use micro_agent_protocol.Server.Auth.{
  AuthScheme, unsecured, signed_request, is_signed_request, Request, Outside, AuthConfig, AuthError,
  wants_signed_request_auth, get_signed_request_error,
}
use micro_agent_protocol.Server.Auth.Bearer.{Thrown, get_bearer_token_error}

-- The scheme that is required: the descriptor's of the capability, unless all requests are signed.
unfoldable pub required_auth_scheme : AuthConfig → Option AuthScheme → AuthScheme
required_auth_scheme c descriptor =
    if c.enforce_signed_requests then signed_request else or_else descriptor unsecured

unfoldable pub requires_signed_request : AuthConfig → Option AuthScheme → Request → Bool
unfolding required_auth_scheme
requires_signed_request c descriptor r =
    is_signed_request (required_auth_scheme c descriptor) || wants_signed_request_auth r

-- None where the request goes on, or the error that it is answered with.
unfoldable pub authenticate :
    Outside → AuthConfig → ℕ → Option AuthScheme → Request → Result Thrown (Option AuthError)
unfolding required_auth_scheme requires_signed_request get_bearer_token_error
    get_signed_request_error
authenticate o c now descriptor r =
    if c.enforce_bearer_auth
      && not (wants_signed_request_auth r)
      && not (is_signed_request (required_auth_scheme c descriptor))
    then get_bearer_token_error o c now r
    else (if requires_signed_request c descriptor r
        then ok (get_signed_request_error o c now r)
        else ok none)
