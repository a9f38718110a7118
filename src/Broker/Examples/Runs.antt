-- ===== src/Broker/Examples/Runs.antt =====
-- Runs of the broker of broker/ and of its goroutines.
use thoth.Base.{
  true, ◌==◌, pos, ℕ, ◌≡◌, refl, Option, none, some, List, [], ◌∷◌, ◌++◌, Bytes, Bytes-discrete,
  length,
}
use thoth.Packets.{ConnectPacket, ControlPacket}
use thoth.Assoc.{lookup, insert}
use thoth.Heap.{at_address, modify}
use thoth.Sessions.Session as Session
use thoth.Sessions.Store as Store
use thoth.Client as Client
use thoth.Client.Silence.{IsSilent}
use thoth.Broker.{ClientType, new_broker}
use thoth.Broker.Publish.Sent.{state_of}
use thoth.Broker.Process.Reading.{heard}
use thoth.Broker.Connect.{register_client, open_client, handle_connect, handle_connection}
use thoth.Auth.{AuthConfig, Service, check_connect}
use thoth.Broker.Connect.Admission.{is_accepted, handle_connection-eq-admits}
use thoth.Broker.Connect.Authenticated.{asking, IsLetIn, handle_connection-authenticated}
use thoth.Broker.Invariant.Runs.{new_broker-IsBroker}
use thoth.Broker.Invariant.{Event, run}
use thoth.Broker.Invariant.Empty.{run-clients}
use thoth.Broker.Invariant.Closed.{disconnect-silences}
use thoth.Broker.System.{Worker, System, Action, new_system, start, advance_all}
use thoth.Broker.System.Workers.{messages_of, in_flight}
use thoth.Broker.System.Told.{pending}
use thoth.Broker.System.Order.{reached, advance_all-heard, advance_all-cluster}
use thoth.Broker.System.Progress.{to_submission, to_processing, IsProcessed, advance_all-processes}
use thoth.Broker.Examples.{
  world, visit, peer, events, subscription_packet, two_peers, two_peers-IsBroker,
}

run-clients_example : (run events new_broker).clients ≡ []
run-clients_example = run-clients events

disconnect-silences_example :
    (s : Client.Client) × (state_of (
        at_address 0
          (run (Event.message world 0 ControlPacket.disconnect ∷ events) two_peers).peers)
      ≡ some s)
    × IsSilent [] s
disconnect-silences_example =
    disconnect-silences world events two_peers 0 (peer ClientType.end_user (98 ∷ []) 0)
      two_peers-IsBroker refl

abbrev said_packets : List (Option ControlPacket)
said_packets =
    some (ControlPacket.subscribe subscription_packet) ∷ some ControlPacket.pingreq ∷ none ∷ []

abbrev served : ℕ → List Action
served c = Action.polls c ∷ Action.receives c ∷ Action.submits c ∷ Action.works world 0 ∷ []

abbrev hash : Bytes → ℕ
hash client_id = length client_id

abbrev actions : List Action
actions =
    Action.connects world (visit (98 ∷ [])) ClientType.end_user said_packets ∷ served 0
    ++ Action.polls 0 ∷ Action.receives 0 ∷ []

advance_all-heard_example :
    let s = reached hash (pos 1) actions in
    (rest : List ControlPacket) × (messages_of 0 s.processed
        ++ (in_flight 0 s.workers ++ (pending (s.readers 0).phase ++ rest))
      ≡ heard (s.readers 0).stream)
advance_all-heard_example = advance_all-heard hash (pos 1) actions 0

abbrev of_cluster : List Action
of_cluster = Action.connects world (visit (98 ∷ [])) ClientType.cluster said_packets ∷ served 0

cluster_stays :
    at_address 0 (reached hash (pos 1) of_cluster).broker.peers
    ≡ some (peer ClientType.cluster (98 ∷ []) 0)
unfolding handle_connection handle_connect open_client register_client Bytes-discrete insert lookup
    Store.get_session Store.fresh_session Store.create_managed Store.create Session.init modify
cluster_stays = refl

advance_all-cluster_example :
    (messages_of 0 (reached hash (pos 1) of_cluster).processed ≡ [])
    × (in_flight 0 (reached hash (pos 1) of_cluster).workers ≡ [])
advance_all-cluster_example =
    advance_all-cluster hash (pos 1) of_cluster 0 (peer ClientType.cluster (98 ∷ []) 0)
      cluster_stays refl

-- The worker of the first client has a task of the second.
abbrev waiting_system : System
waiting_system = record (new_system (pos 2)) {
  broker = two_peers;
  readers = λ a. start said_packets;
  workers = Worker.idle ∷ Worker.busy 1 ControlPacket.pingreq ∷ [];
}

advance_all-processes_example :
    IsProcessed world 0 1
      (some (ControlPacket.subscribe subscription_packet))
      (some ControlPacket.pingreq ∷ none ∷ [])
      ((1, ControlPacket.pingreq) ∷ [])
      (advance_all hash (to_submission 0 1 world) waiting_system).broker
      (advance_all hash (to_processing 0 1 world world) waiting_system)
advance_all-processes_example =
    advance_all-processes hash world world 0 (peer ClientType.end_user (98 ∷ []) 0)
      (some (ControlPacket.subscribe subscription_packet)) (some ControlPacket.pingreq ∷ none ∷ [])
      (Worker.busy 1 ControlPacket.pingreq) waiting_system two_peers-IsBroker refl (λ e. cc) refl
      refl refl refl (λ e. cc)

abbrev service : Service
service = record {
  dial = λ host port. port == 7001;
  authenticate = λ key request. some (length key == 2);
}

abbrev config : AuthConfig
config = record { heimdallr_host = []; heimdallr_port = 7001; heimdallr_api_key = 1 ∷ 2 ∷ [] }

let_in :
    is_accepted
      (handle_connection world
        (asking service config (visit (98 ∷ [])))
        ClientType.end_user
        new_broker).1
    ≡ true
unfolding check_connect
let_in =
    handle_connection-eq-admits world (asking service config (visit (98 ∷ []))) ClientType.end_user
      new_broker new_broker-IsBroker

handle_connection-authenticated_example :
    (msg : ConnectPacket) × ((visit (98 ∷ [])).packet ≡ some (ControlPacket.connect msg))
    × IsLetIn service config msg
handle_connection-authenticated_example =
    handle_connection-authenticated service config world (visit (98 ∷ [])) new_broker
      new_broker-IsBroker let_in
