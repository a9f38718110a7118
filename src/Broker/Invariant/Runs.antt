-- ===== src/Broker/Invariant/Runs.antt =====
-- The validity of the pointers and `ProcessMessage` of broker/client.go, and runs of the broker.
use thoth.Base.{
  refl, ℕ, inl, inr, Bool, true, false, not, none, some, List, [], ◌∷◌, if◌then◌else◌, Option-cases,
}
use thoth.Packets.{ControlPacket}
use thoth.Utf8.{valid_string}
use thoth.Heap.{at_address}
use thoth.Client.Effects.{Effect}
use thoth.Client.Fields.{validate_packet_fields}
use thoth.Broker.{Broker, World, with_peer, new_broker}
use thoth.Broker.Process.{dispatch, hang_up, process_message}
use thoth.Broker.Valid.{IsBroker, IsBroker-IsKept}
use thoth.Broker.Kept.{IsKept}
use thoth.Topics.MemTopics.Invariant.{new_mem_provider-IsMemTopics}
use thoth.Broker.Invariant.{Event, or_same, run}
use thoth.Broker.Invariant.Published.{process_publish-kept}
use thoth.Broker.Invariant.Subscribed.{process_subscribe-kept}
use thoth.Broker.Invariant.Unsubscribed.{process_unsubscribe-kept}
use thoth.Broker.Invariant.Connected.{handle_connection-kept}

module _ (P : Broker → Type 0) (kept : IsKept P) where
  pub dispatch-kept :
      (w : World) (c : ℕ) (packet : ControlPacket) (b : Broker) → P b → P (dispatch w c packet b)
  unfolding dispatch
  dispatch-kept w c (ControlPacket.connack p) b v = v
  dispatch-kept w c (ControlPacket.connect p) b v = v
  dispatch-kept w c (ControlPacket.publish p) b v = process_publish-kept P kept w c p b v
  dispatch-kept w c (ControlPacket.puback i) b v = kept.acts c (Effect.puback i) b v
  dispatch-kept w c (ControlPacket.pubrec i) b v =
      kept.acts c (Effect.pubrec (w.writes c) w.now i) b v
  dispatch-kept w c (ControlPacket.pubrel i) b v = kept.acts c (Effect.pubrel (w.writes c) i) b v
  dispatch-kept w c (ControlPacket.pubcomp i) b v = kept.acts c (Effect.pubcomp i) b v
  dispatch-kept w c (ControlPacket.subscribe p) b v = process_subscribe-kept P kept w c p b v
  dispatch-kept w c (ControlPacket.suback p) b v = v
  dispatch-kept w c (ControlPacket.unsubscribe p) b v = process_unsubscribe-kept P kept w c p b v
  dispatch-kept w c (ControlPacket.unsuback i) b v = v
  dispatch-kept w c ControlPacket.pingreq b v = kept.acts c (Effect.ping (w.writes c)) b v
  dispatch-kept w c ControlPacket.pingresp b v = v
  dispatch-kept w c ControlPacket.disconnect b v = kept.acts c Effect.closing b v

  process_message-kept :
      (w : World) (c : ℕ) (packet : ControlPacket) (b : Broker)
      → P b
      → P (or_same b (process_message w c packet b))
  unfolding process_message
  process_message-kept w c packet b v = elim (Option-cases (at_address c b.peers)) [
    | inl e ↦ rw (e, process_message) v
    | inr (p, e) ↦
        rw (e, process_message)
          (of_tests (not (validate_packet_fields valid_string packet)) p.state.conn)
  ]
    where
      of_tests :
          (x y : Bool)
          → P (
              or_same b (
                if x
                then (if y then some (with_peer c hang_up b) else none)
                else some (dispatch w c packet b)))
      of_tests true true = kept.owns c hang_up b (λ q. (refl, refl, refl, refl, λ h. h)) v
      of_tests true false = v
      of_tests false y = dispatch-kept w c packet b v

  -- A property that withstands the changes of the store withstands every sequence of events.
  pub run-kept : (es : List Event) (b : Broker) → P b → P (run es b)
  run-kept [] b v = v
  run-kept (Event.message w c packet ∷ es) b v = run-kept es _ (process_message-kept w c packet b v)
  run-kept (Event.connection w x typ ∷ es) b v =
      run-kept es _ (handle_connection-kept P kept w x typ b v)
  run-kept (Event.retries w c ∷ es) b v =
      run-kept es _ (kept.acts c (Effect.timer (w.writes c) w.now) b v)
  run-kept (Event.expires w c ∷ es) b v = run-kept es _ (kept.acts c (Effect.expiry w.now) b v)

-- Each sequence of messages of the clients, of connections, accepted or not, and of timers,
-- with the writes, the clock, the choices of shared subscribers and the answers of the
-- authentication given with each of its steps, keeps the pointers of the broker valid: the tree
-- of subscriptions leads to subscriptions, these lead to clients, the clients lead to
-- subscriptions and sessions, the store of sessions leads to sessions, the maps `clients` and
-- `routes` lead to clients, and both trees are well-formed.
pub run-IsBroker : (es : List Event) (b : Broker) → IsBroker b → IsBroker (run es b)
run-IsBroker = run-kept IsBroker IsBroker-IsKept

pub new_broker-IsBroker : IsBroker new_broker
new_broker-IsBroker = (new_mem_provider-IsMemTopics, (tt, tt), tt, tt, tt, tt, tt)
