-- ===== src/Broker/Remotes.antt =====
-- What broker/info.go sends, and `CheckRemoteExist` of broker/broker.go. The packet of `SendConnect` has no
-- protocol name and version here, as no CONNECT has.
use thoth.Base.{
  ℕ, suc, zero, ◌+◌, ◌≡◌, ◌≢◌, ◌≤◌, ◌⊎◌, inl, inr, refl, sym, subst, ap, ◌∙◌, arith, Bool, true,
  false, List, [], ◌∷◌, ◌++◌, append-nil, append_assoc, length, Bytes, Bytes-discrete, codes, ite,
  if_pos, if_neg, if◌then◌else◌, Bool-cases,
}
use thoth.Packets.{PublishPacket, ConnectPacket, ControlPacket}
use thoth.Client.{Client, is_disconnected, write_packet, close}
use thoth.Broker.{is_none}
use thoth.Broker.Publish.{broker_info_topic}
use thoth.Broker.Publish.Sent.{replicate}

-- `fmt.Sprintf` with the two texts put in.
abbrev pub info_payload : Bytes → Bytes → Bytes
info_payload sid url =
    codes "{\"brokerID\": \"" ++ sid ++ codes "\", \"brokerUrl\": \"" ++ url ++ codes "\"}"

abbrev pub new_info : Bytes → Bytes → Bool → PublishPacket
new_info sid url isforword = record {
  message_id = 0;
  topic_name = broker_info_topic;
  qos = 0;
  retain = false;
  dup = false;
  payload = info_payload sid url;
}

-- `SendInfo`, with the client's local address, the port of the cluster and the broker's identifier.
unfoldable pub send_info : (ControlPacket → Bool) → Bytes → Bytes → Bytes → Client → Client
send_info writes local_ip port id c =
    if is_disconnected c.status
    then c
    else (write_packet writes
        (ControlPacket.publish (new_info id (local_ip ++ codes ":" ++ port) false)) c).0

abbrev pub connect_request : Bytes → ConnectPacket
connect_request client_id = record {
  client_identifier = client_id;
  username = [];
  password = [];
  keepalive = 60;
  clean_session = true;
  will_flag = false;
  will_qos = 0;
  will_retain = false;
  will_topic = [];
  will_message = [];
  qos = 0;
  dup = false;
}

-- `SendConnect`; a status is Connected or Disconnected.
unfoldable pub send_connect : (ControlPacket → Bool) → Bytes → Client → Client
send_connect writes client_id c =
    if is_disconnected c.status
    then c
    else (write_packet writes (ControlPacket.connect (connect_request client_id)) c).0

abbrev pub close_if : Bool → Client → Client
close_if true c = c
close_if false c = close c

-- A tick of `StartPing`, and whether its write succeeds.
unfoldable pub ping_tick : (ControlPacket → Bool) → Client → Client
ping_tick writes c =
    let (c', e) = write_packet writes ControlPacket.pingreq c in close_if (is_none e) c'

-- The rounds of `StartPing`: a tick, or the end of the context, which ends the loop. Where both are there,
-- the `select` takes either.
pub data Round : Type 0 where
  tick : (ControlPacket → Bool) → Round
  done : Round

unfoldable pub start_ping : List Round → Client → Client
start_ping [] c = c
start_ping (Round.tick writes ∷ rounds) c = start_ping rounds (ping_tick writes c)
start_ping (Round.done ∷ rounds) c = if c.cancelled then c else start_ping rounds c

-- `route` of a client.
pub record Route : Type 0 where
  pub remote_id : Bytes
  pub remote_url : Bytes

abbrev pub found_first : Bool × List (Bytes × Route) → Bytes × Route → Bool × List (Bytes × Route)
found_first (exist, rest) entry = (exist, entry ∷ rest)

-- The entries in the order of `Range`; the function stops it where it returns false.
unfoldable pub check_remote_exist :
    Bytes → Bytes → List (Bytes × Route) → Bool × List (Bytes × Route)
check_remote_exist remote_id url [] = (false, [])
check_remote_exist remote_id url ((key, r) ∷ remotes) =
    ite (Bytes-discrete r.remote_url url)
      (true, (key, record r { remote_id = remote_id }) ∷ remotes)
      (found_first (check_remote_exist remote_id url remotes) (key, r))

-- No entry has the URL.
abbrev pub AllOthers : Bytes → List (Bytes × Route) → Type 0
AllOthers url [] = Unit
AllOthers url ((key, r) ∷ remotes) = (r.remote_url ≢ url) × AllOthers url remotes

-- The first entry of the URL is changed, and there is one; or there is none, and nothing is changed.
abbrev pub IsChecked : Bytes → Bytes → List (Bytes × Route) → Bool × List (Bytes × Route) → Type 0
IsChecked remote_id url remotes o =
    ((o ≡ (false, remotes)) × AllOthers url remotes)
    ⊎ ((before : List (Bytes × Route)) × (key : Bytes) × (r : Route) × (after : List
          (Bytes × Route))
        × (remotes ≡ before ++ (key, r) ∷ after)
        × AllOthers url before
        × (r.remote_url ≡ url)
        × (o ≡ (true, before ++ (key, record r { remote_id = remote_id }) ∷ after)))

found_first-IsChecked :
    (remote_id url : Bytes) (key : Bytes) (r : Route) (remotes : List (Bytes × Route))
    (o : Bool × List (Bytes × Route))
    → r.remote_url ≢ url
    → IsChecked remote_id url remotes o
    → IsChecked remote_id url ((key, r) ∷ remotes) (found_first o (key, r))
found_first-IsChecked remote_id url key r remotes o n (inl (e, a)) =
    inl (ap (λ x. found_first x (key, r)) e, (n, a))
found_first-IsChecked remote_id url key r remotes o n (inr (before, key', r', after, e, a, u, k)) =
    inr (
      (key, r) ∷ before,
      key',
      r',
      after,
      ap (◌∷◌ (key, r)) e,
      (n, a),
      u,
      ap (λ x. found_first x (key, r)) k,
    )

-- `CheckRemoteExist` finds a remote exactly where one has the URL. It gives the first such remote the identifier,
-- and changes neither its URL nor another remote; where there is none, it changes nothing.
pub check_remote_exist-IsChecked :
    (remote_id url : Bytes) (remotes : List (Bytes × Route))
    → IsChecked remote_id url remotes (check_remote_exist remote_id url remotes)
unfolding check_remote_exist
check_remote_exist-IsChecked remote_id url [] = inl (refl, tt)
check_remote_exist-IsChecked remote_id url ((key, r) ∷ remotes) =
    elim (Bytes-discrete r.remote_url url) [
      | yes e ↦
          subst (IsChecked remote_id url ((key, r) ∷ remotes))
            (sym (if_pos (Bytes-discrete r.remote_url url) e _ _))
            (inr ([], key, r, remotes, refl, tt, e, refl))
      | no n ↦
          subst (IsChecked remote_id url ((key, r) ∷ remotes))
            (sym (if_neg (Bytes-discrete r.remote_url url) n _ _))
            (found_first-IsChecked remote_id url key r remotes
              (check_remote_exist remote_id url remotes) n
              (check_remote_exist-IsChecked remote_id url remotes))
    ]

replicate-append :
    (m n : ℕ) (p : ControlPacket) → replicate m p ++ replicate n p ≡ replicate (m + n) p
replicate-append zero n p = ap (λ k. replicate k p) (add_left n)
  where
    add_left : (n : ℕ) → n ≡ 0 + n
    add_left n = omega arith
replicate-append (suc m) n p =
    ap (◌∷◌ p) (replicate-append m n p) ∙ ap (λ k. replicate k p) (suc_left m n)
  where
    suc_left : (m n : ℕ) → suc (m + n) ≡ suc m + n
    suc_left m n = omega arith

sent-ping_tick :
    (writes : ControlPacket → Bool) (c : Client)
    → (n : ℕ) × (n ≤ 1) × ((ping_tick writes c).sent ≡ c.sent ++ replicate n ControlPacket.pingreq)
unfolding ping_tick write_packet close
sent-ping_tick writes c = elim (Bool-cases (is_disconnected c.status)) [
  | inl d ↦ (0, omega arith, ground (arith, append-nil c.sent))
  | inr d ↦ elim (Bool-cases c.conn) [
    | inr k ↦ (0, omega arith, ground (arith, append-nil c.sent))
    | inl k ↦ elim (Bool-cases (writes ControlPacket.pingreq)) [
      | inr w ↦ (0, omega arith, ground (arith, append-nil c.sent))
      | inl w ↦ (1, omega arith, ground arith)
    ]
  ]
]

-- `StartPing` writes nothing but PINGREQs, at most one for each of its rounds.
pub sent-start_ping :
    (rounds : List Round) (c : Client)
    → (n : ℕ) × (n ≤ length rounds)
      × ((start_ping rounds c).sent ≡ c.sent ++ replicate n ControlPacket.pingreq)
unfolding start_ping
sent-start_ping [] c = (0, omega arith, sym (append-nil c.sent))
sent-start_ping (Round.tick writes ∷ rounds) c =
    let (m, l, e) = sent-ping_tick writes c in
    let (n, k, f) = sent-start_ping rounds (ping_tick writes c) in
    (
      m + n,
      omega (arith, l, k),
      f
          ∙ ap (◌++ replicate n ControlPacket.pingreq) e
          ∙ append_assoc c.sent (replicate m ControlPacket.pingreq)
              (replicate n ControlPacket.pingreq)
          ∙ ap (c.sent ++◌) (replicate-append m n ControlPacket.pingreq),
    )
sent-start_ping (Round.done ∷ rounds) c = of_test c.cancelled (sent-start_ping rounds c)
  where
    of_test :
        (b : Bool)
        → (n : ℕ) × (n ≤ length rounds)
          × ((start_ping rounds c).sent ≡ c.sent ++ replicate n ControlPacket.pingreq)
        → (n : ℕ) × (n ≤ suc (length rounds))
          × ((if b then c else start_ping rounds c).sent
              ≡ c.sent ++ replicate n ControlPacket.pingreq)
    of_test true h = (0, omega arith, sym (append-nil c.sent))
    of_test false (n, l, e) = (n, omega (arith, l), e)
