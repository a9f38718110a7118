-- ===== src/Client/Fields.antt =====
-- The check of the fields of a packet in broker/client.go; `utf8.ValidString` is an argument, which the broker gives as in Utf8.
use thoth.Base.{◌≡◌, ◌≢◌, Bool, true, false, not, List, [], ◌∷◌, Bytes, ◌==◌, if◌then◌else◌}
use thoth.Packets.{ControlPacket}

unfoldable pub extract_packet_fields : ControlPacket → List Bytes
extract_packet_fields (ControlPacket.publish packet) = packet.topic_name ∷ []
extract_packet_fields (ControlPacket.unsubscribe packet) = packet.topics
extract_packet_fields _ = []

-- `bytes.ContainsAny([]byte(field), "\u0000")`
abbrev pub contains_null : Bytes → Bool
contains_null [] = false
contains_null (c ∷ field) = if c == 0 then true else contains_null field

-- The loop of `validatePacketFields`.
unfoldable pub validate_fields : (Bytes → Bool) → List Bytes → Bool
validate_fields valid_string [] = true
validate_fields valid_string (field ∷ fields) =
    if not (valid_string field)
    then false
    else if contains_null field
    then false
    else validate_fields valid_string fields

abbrev pub validate_packet_fields : (Bytes → Bool) → ControlPacket → Bool
validate_packet_fields valid_string packet =
    validate_fields valid_string (extract_packet_fields packet)

-- No byte of the field is 0.
abbrev pub HasNoNull : Bytes → Type 0
HasNoNull [] = Unit
HasNoNull (c ∷ field) = (c ≢ 0) × HasNoNull field

-- Each field is valid UTF-8 without the byte 0.
abbrev pub AllWellFormed : (Bytes → Bool) → List Bytes → Type 0
AllWellFormed valid_string [] = Unit
AllWellFormed valid_string (field ∷ fields) =
    (valid_string field ≡ true) × HasNoNull field × AllWellFormed valid_string fields

-- The topic of a PUBLISH is well-formed, and so is each topic of an UNSUBSCRIBE; other packets have no field
-- that is checked.
abbrev pub IsWellFormed : (Bytes → Bool) → ControlPacket → Type 0
IsWellFormed valid_string (ControlPacket.publish packet) =
    (valid_string packet.topic_name ≡ true) × HasNoNull packet.topic_name
IsWellFormed valid_string (ControlPacket.unsubscribe packet) =
    AllWellFormed valid_string packet.topics
IsWellFormed valid_string other = Unit
