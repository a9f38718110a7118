-- ===== src/Broker/Examples/Replies.antt =====
-- Runs of SUBSCRIBE, UNSUBSCRIBE and of connections of broker/ on a small broker.
use mathlib.Core.List.{Perm}
use thoth.Base.{
  ◌↔◌, ℕ, ◌≡◌, refl, true, false, none, some, List, [], ◌∷◌, ◌++◌, Bytes, Bytes-discrete,
  if◌then◌else◌, Option,
}
use thoth.Packets.{ControlPacket, PublishPacket}
use thoth.Assoc.{lookup, insert}
use thoth.Heap.{at_address, modify}
use thoth.Topics.Level.{round, scan, next_topic_level}
use thoth.Topics.Levels.{levels}
use thoth.Topics.Matching.{matches}
use thoth.Topics.Trie.{find, put}
use thoth.Topics.Value.{Value, equal}
use thoth.Topics.Snode.{sinsert, insert_here, index_of}
use thoth.Topics.Snode.Entries.{entries, holds}
use thoth.Topics.Snode.Match.{hits}
use thoth.Topics.MemTopics.{subscribe}
use thoth.Client as Client
use thoth.Broker.{Broker, ClientType, new_peer, Peer}
use thoth.Broker.Publish.Sent.{state_of, sent_of}
use thoth.Broker.Subscribe.{
  rounds, router_round, find_sub, new_subscription, replace_old, with_session, parse_share,
  client_round, zip, suback_of, process_client_subscribe,
}
use thoth.Broker.Groups.{IsGroup}
use thoth.Broker.Subscribe.{share_prefix}
use thoth.Broker.Subscribe.Shares.{parse_share-iff-IsGroup}
use thoth.Broker.Subscribe.Grants.{AreCodes, rounds-AreCodes}
use thoth.Broker.Connect.{Visit, info_of, handle_connection}
use thoth.Broker.Connect.Admission.{is_accepted, admits, handle_connection-eq-admits}
use thoth.Broker.Connect.Takeover.{answer, handle_connection-takes_over}
use thoth.Broker.Subscribe.Replies.{state_at, messages, process_client_subscribe-sent}
use thoth.Topics.MemTopics.{retain}
use thoth.Broker.Valid.{retain-IsBroker}
use thoth.Broker.Subscribe.{rmsgs_of}
use thoth.Broker.Subscribe.Added.{AreAdded}
use thoth.Broker.Unsubscribe.{client_unsubscribe}
use thoth.Broker.Unsubscribe.Ended.{client_unsubscribe-ends}
use thoth.Broker.Examples.{
  message, request, world, visit, topic, subscription_packet, two_peers, two_peers-IsBroker,
  topic_path, broker, broker-IsServing,
}

abbrev asked_for : List (Bytes × ℕ)
asked_for = zip subscription_packet.topics subscription_packet.qoss

rounds-AreCodes_example :
    AreCodes asked_for (rounds (client_round world 0) asked_for (two_peers, [])).1
    × AreCodes asked_for (rounds (router_round world 0) asked_for (two_peers, [])).1
rounds-AreCodes_example = rounds-AreCodes world 0 asked_for two_peers

-- With a retained message on the topic of the first filter.
abbrev remembering : Broker
remembering = record two_peers { topics = (retain (message 0) two_peers.topics).0 }

process_client_subscribe-sent_example :
    (codes : List ℕ) × (ms : List PublishPacket) × AreCodes asked_for codes
    × AreAdded remembering.topics.rroot asked_for ms
    × (sent_of (state_at 0 (process_client_subscribe world 0 subscription_packet remembering))
        ≡ [] ++ suback_of subscription_packet codes ∷ messages (rmsgs_of 0 remembering ++ ms))
process_client_subscribe-sent_example =
    process_client_subscribe-sent world 0 subscription_packet remembering Client.init refl
      (refl, refl) (λ p. refl) (retain-IsBroker (message 0) two_peers two_peers-IsBroker).0.rnodes

handle_connection-eq-admits_example :
    is_accepted (handle_connection world (visit (98 ∷ [])) ClientType.end_user two_peers).1
    ≡ admits (visit (98 ∷ [])) ClientType.end_user
handle_connection-eq-admits_example =
    handle_connection-eq-admits world (visit (98 ∷ [])) ClientType.end_user two_peers
      two_peers-IsBroker

abbrev stranger : Visit
stranger = record (visit (98 ∷ [])) { check_connect = λ u p. false }

handle_connection-takes_over_example :
    let b' = (handle_connection world (visit (99 ∷ [])) ClientType.router two_peers).0 in
    (state_of (at_address 1 b'.peers) ≡ some (Client.close Client.init))
    × (lookup Bytes-discrete (99 ∷ []) b'.routes ≡ some 2)
    × ((a : ℕ) × ((answer (visit (99 ∷ [])) (request (99 ∷ [])) two_peers).session ≡ some a)
        × (at_address 2 b'.peers
            ≡ some (new_peer ClientType.router (info_of (request (99 ∷ []))) a)))
unfolding lookup Bytes-discrete
handle_connection-takes_over_example =
    handle_connection-takes_over world (visit (99 ∷ [])) (request (99 ∷ [])) two_peers 1 Client.init
      two_peers-IsBroker refl refl refl refl

subscription_kept :
    (find_sub 0 topic broker ≡ some 0)
    × (at_address 0 broker.subscriptions ≡ some (new_subscription 0 1 (topic, false, [])))
    × (holds (topic ∷ []) (Value.pointer 0) broker.topics.sroot ≡ true)
unfolding client_round parse_share Bytes-discrete replace_old with_session modify lookup insert
    subscribe sinsert insert_here index_of equal find put levels next_topic_level scan round holds
subscription_kept = (refl, refl, refl)

client_unsubscribe-ends_example :
    let after = client_unsubscribe 0 topic broker in
    let left = hits (topic ∷ []) (entries after.topics.sroot) in
    (find_sub 0 topic after ≡ none)
    × Perm
        (hits (topic ∷ []) (entries broker.topics.sroot))
        (if matches (topic ∷ []) (topic ∷ []) then Value.pointer 0 ∷ left else left)
client_unsubscribe-ends_example =
    client_unsubscribe-ends 0 topic topic 0 (new_subscription 0 1 (topic, false, [])) (topic ∷ [])
      (topic ∷ []) broker subscription_kept.0 subscription_kept.1 topic_path topic_path
      subscription_kept.2 broker-IsServing.0.0

-- A DISCONNECT and a packet behind it.
abbrev reads : List (Option ControlPacket)
reads = some ControlPacket.pingreq ∷ some ControlPacket.disconnect ∷ some ControlPacket.pingreq ∷ []

abbrev reader : Peer
reader = new_peer ClientType.end_user (info_of (request (98 ∷ []))) 0

-- "g/a"
abbrev group_filter : Bytes
group_filter = 103 ∷ 47 ∷ 97 ∷ []

parse_share-iff-IsGroup_example :
    (parse_share (share_prefix ++ group_filter) ≡ some (97 ∷ [], true, 103 ∷ []))
    ↔ IsGroup group_filter (103 ∷ []) (97 ∷ [])
parse_share-iff-IsGroup_example = parse_share-iff-IsGroup group_filter (103 ∷ []) (97 ∷ [])
