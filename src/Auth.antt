-- ===== src/Auth.antt =====
-- `AuthClient` of auth/auth.go and `AuthenticateClient` of broker/auth.go. The gRPC library and the service
-- behind it are parameters: whether `Dial` gives a connection to a host and a port, and what the call
-- `Authenticate` comes to there.
use thoth.Base.{ℕ, ◌≡◌, refl, Bool, true, false, Option, none, some, Bytes, if◌then◌else◌}

-- `AuthRequest`
pub record AuthRequest : Type 0 where
  pub client_id : Bytes
  pub jwt_token : Bytes

-- The fields of the configuration that are used here.
pub record AuthConfig : Type 0 where
  pub heimdallr_host : Bytes
  pub heimdallr_port : ℕ
  pub heimdallr_api_key : Bytes

-- `authenticate` is given the API key of the metadata and the request; an error is none, an answer its
-- `GetSuccess()`.
pub record Service : Type 0 where
  pub dial : Bytes → ℕ → Bool
  pub authenticate : Bytes → AuthRequest → Option Bool

-- An error of the call is a refusal.
abbrev pub result_of : Option Bool → Bool
result_of none = false
result_of (some success) = success

unfoldable pub check_connect : Service → AuthConfig → Bytes → Bytes → Bool
check_connect service config username password =
    if service.dial config.heimdallr_host config.heimdallr_port
    then result_of (
        service.authenticate config.heimdallr_api_key
          (record { client_id = username; jwt_token = password }))
    else false

-- `b.auth`, which may be nil.
abbrev pub authenticate_client : Option (Bytes → Bytes → Bool) → Bytes → Bytes → Bool
authenticate_client none username password = true
authenticate_client (some check) username password = check username password

result_of-true : (o : Option Bool) → result_of o ≡ true → o ≡ some true
result_of-true none h = cc
result_of-true (some true) h = refl
result_of-true (some false) h = cc

guarded : (x y : Bool) → (if x then y else false) ≡ true → (x ≡ true) × (y ≡ true)
guarded true y h = (refl, h)
guarded false y h = cc

-- A client is let in only where the service can be reached and answers that it is let in.
pub check_connect-true :
    (service : Service) (config : AuthConfig) (username password : Bytes)
    → check_connect service config username password ≡ true
    → (service.dial config.heimdallr_host config.heimdallr_port ≡ true)
      × (service.authenticate config.heimdallr_api_key
            (record { client_id = username; jwt_token = password })
          ≡ some true)
unfolding check_connect
check_connect-true service config username password h =
    let (d, a) = guarded (service.dial config.heimdallr_host config.heimdallr_port) _ h in
    (d, result_of-true _ a)
