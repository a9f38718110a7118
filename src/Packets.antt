-- ===== src/Packets.antt =====
-- The MQTT control packets, with the fields that the broker reads or writes. The types themselves
-- are those of github.com/eclipse/paho.mqtt.golang/packets; `qos`, `dup` and `retain` are the
-- fields of their fixed header.
use thoth.Base.{ℕ, Bool, List, Bytes}

pub record PublishPacket : Type 0 where
  pub message_id : ℕ
  pub topic_name : Bytes
  pub qos : ℕ
  pub retain : Bool
  pub dup : Bool
  pub payload : Bytes

pub record ConnectPacket : Type 0 where
  pub client_identifier : Bytes
  pub username : Bytes
  pub password : Bytes
  pub keepalive : ℕ
  pub clean_session : Bool
  pub will_flag : Bool
  pub will_qos : ℕ
  pub will_retain : Bool
  pub will_topic : Bytes
  pub will_message : Bytes
  pub qos : ℕ
  pub dup : Bool

pub record ConnackPacket : Type 0 where
  pub session_present : Bool
  pub return_code : ℕ

pub record SubscribePacket : Type 0 where
  pub message_id : ℕ
  pub topics : List Bytes
  pub qoss : List ℕ

pub record UnsubscribePacket : Type 0 where
  pub message_id : ℕ
  pub topics : List Bytes

pub record SubackPacket : Type 0 where
  pub message_id : ℕ
  pub return_codes : List ℕ

pub data ControlPacket : Type 0 where
  connect : ConnectPacket → ControlPacket
  connack : ConnackPacket → ControlPacket
  publish : PublishPacket → ControlPacket
  puback pubrec pubrel pubcomp unsuback : ℕ → ControlPacket
  subscribe : SubscribePacket → ControlPacket
  suback : SubackPacket → ControlPacket
  unsubscribe : UnsubscribePacket → ControlPacket
  pingreq pingresp disconnect : ControlPacket
