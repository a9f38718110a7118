-- ===== src/Broker/Connect/Authenticated.antt =====
-- End users of `handleConnection` in broker/broker.go, let in by the authentication of auth/auth.go.
use thoth.Base.{◌≡◌, refl, sym, ◌∙◌, Bool, true, false, ◌&&◌, Option, none, some, ◌==◌}
use thoth.Packets.{ConnectPacket, ControlPacket}
use thoth.Auth.{AuthConfig, Service, check_connect, check_connect-true}
use thoth.Broker.{ClientType, Broker, World}
use thoth.Broker.Valid.{IsBroker}
use thoth.Broker.Connect.{Visit, accepted_code, handle_connection}
use thoth.Broker.Connect.Admission.{is_accepted, admits_packet, handle_connection-eq-admits}

-- The answer to `CheckConnect` is that of the service.
abbrev pub asking : Service → AuthConfig → Visit → Visit
asking service config v = record v { check_connect = check_connect service config }

-- The service was reached, and let the user of the CONNECT in.
abbrev pub IsLetIn : Service → AuthConfig → ConnectPacket → Type 0
IsLetIn service config msg =
    (service.dial config.heimdallr_host config.heimdallr_port ≡ true)
    × (service.authenticate config.heimdallr_api_key
          (record { client_id = msg.username; jwt_token = msg.password })
        ≡ some true)

second : (x y z : Bool) → (x && y && z) ≡ true → y ≡ true
second true true z h = refl
second true false z h = cc
second false y z h = cc

let_in :
    (service : Service) (config : AuthConfig) (v : Visit) (o : Option ControlPacket)
    → admits_packet (asking service config v) ClientType.end_user o ≡ true
    → (msg : ConnectPacket) × (o ≡ some (ControlPacket.connect msg)) × IsLetIn service config msg
let_in service config v none h = cc
let_in service config v (some (ControlPacket.connect msg)) h = (
  msg,
  refl,
  check_connect-true service config msg.username msg.password (
      second (v.validate msg == accepted_code)
        (check_connect service config msg.username msg.password) v.connack_written h),
)
let_in service config v (some other) h = cc

-- A broker with valid pointers accepts the connection of an end user only if its first packet is a CONNECT,
-- and the authentication service could be reached and answered with success to the CONNECT's user name and
-- password, under the configured API key. Where the service cannot be reached, or its answer is an error,
-- no end user is let in.
pub handle_connection-authenticated :
    (service : Service) (config : AuthConfig) (w : World) (v : Visit) (b : Broker)
    → IsBroker b
    → is_accepted (handle_connection w (asking service config v) ClientType.end_user b).1 ≡ true
    → (msg : ConnectPacket) × (v.packet ≡ some (ControlPacket.connect msg))
      × IsLetIn service config msg
handle_connection-authenticated service config w v b k h =
    let_in service config v v.packet
      (sym (handle_connection-eq-admits w (asking service config v) ClientType.end_user b k) ∙ h)
