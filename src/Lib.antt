-- ===== src/Lib.antt =====
-- A verification of thoth, an MQTT broker.
--
-- The broker keeps its subscriptions and retained messages in a provider of topics, its sessions in
-- a provider of sessions, and for each connection a client with the state of its handshakes. A
-- connection is let in and gets a client and a session; the packets of a client go through a pool
-- of workers to `ProcessMessage`, whose handlers change the client, the topics and the session, and
-- write to the connections of other clients.
--
-- - Base, with Lists, Tests, Numbers: shared names, native numbers, lists measured by them. Packets: the
--   MQTT packets, whose types are those of the paho library. Assoc: the maps of Go as association
--   lists; the order of the entries stands for the order of a `range` loop, so that a theorem about
--   every list is one about every order.
-- - Heap, All: the objects that pointers lead to, as a list by addresses, and properties of all of them.
-- - Utf8: `utf8.ValidString` of the standard library, with the encoding that it accepts.
-- - Topics: broker/persistence/topics/memtopics.go. Level is `nextTopicLevel`; Levels its repeated
--   call; Trie the tree under both node types; Snode and Rnode the methods of `snode` and `rnode`;
--   Value is `equal`; MemTopics the provider (`Subscribe`, `Unsubscribe`, `Subscribers`, `Retain`,
--   `Retained`). Matching is the matching of levels that `nextTopicLevel` has split off, which no
--   code of the program is. Manager is
--   `Manager` of topics.go over an interface of its provider, and `memTopics` with its `Close`. The
--   recursions run on fuel, one more than the length of the topic: each level takes at least one
--   byte, so that this is enough. A Go error is a value of `TopicError`.
-- - Sessions: Session is broker/persistence/sessions/session.go; Topics its topics; Store is
--   memsessions.go, `Manager` of sessions.go, and `getSession` of broker/session.go. A pointer to a
--   session is an address in the provider's heap. The random identifier of `sessionId` is an argument.
--   Manager is `Manager` over an interface of its provider; Managed has the runs of its calls; Reconnect is
--   `getSession` on a connection that comes back.
-- - SubMap: `AddSubMap` and `DelSubMap` of utils/utils.go, whose numbers wrap at 2^64.
-- - Registry: `Register`, `Unregister`, `NewManager` of topics.go and sessions.go.
-- - Client: broker/client.go and broker/comm.go. Fields is `validatePacketFields`; Inbound the receiver's side of QoS 2; Outbound the sender's
--   side of QoS 1 and 2 and the retries; Once, Limit, Handshake,
--   Carried, Inflight, Silence and Armed are about what they do one after the other; Effects has all calls on a client as one type. Whether a write
--   succeeds and the time are arguments; times are natural numbers; `sent` records what was written.
-- - Auth: auth/auth.go and broker/auth.go; the connection to the service and its answer are parameters.
-- - Rabbitmq: rabbitmq/rabbitmq.go, the channel of ten messages and the loop of the producer; Accepted
--   tells from the number of waiting messages what is published.
-- - Pool: `New`, `dispatch` and `Submit` of pool/pool.go, with the hash as a parameter; a worker is the
--   list of the tasks that it runs.
-- - Broker: the store of clients, subscriptions, topics and sessions of broker/broker.go. Publish is
--   broker/publish.go with `ProcessInfo` of info.go and `PublishToStream` of rabbitmq/rabbitmq.go;
--   Subscribe is subscribe.go, with Shares, Codes and Grants about the filters and Added, Collected and
--   Replies about what is written back; Unsubscribe is unsubscribe.go with `BroadcastSubOrUnsubMessage`;
--   Process is `ProcessMessage` and `readLoop` of client.go; Connect is
--   `handleConnection` and `PublishMessage` of broker.go; Accept the delays of its accept loop.
--   Kept is the interface between the handlers and the properties of the store: the changes that a
--   property has to withstand; Invariant has the runs of the broker, Valid and Invariant the pointers of
--   the store, Invariant/Clients and Closed the clients; Flow is about SUBSCRIBE and PUBLISH
--   together. `World` has what the handlers ask: writes, the clock, the random choice, the JSON
--   parser; a `Visit` has what a connection brings: its first
--   packet, `Validate`, the answer of the authentication, the random identifier.
--   Groups is the regular expression of shared filters; Remotes is the rest of info.go, and `CheckRemoteExist`.
-- - Broker/System: the goroutines. A reader for each client is `readLoop`, before its `select`, in
--   `ReadPacket` or in `SubmitWork`; a worker is `startWorker` of pool/pool.go. An action is a step of one of
--   them, and a list of actions an interleaving. The packets of a connection are given with it, and
--   `processed` records the calls of `ProcessMessage`. Order is about the order of the packets, Turns and Progress
--   about a packet from its connection to `ProcessMessage`.
-- - Config: the loader of config/env.go; reflection over a struct is recursion over its fields.
-- - Examples, Examples/Providers, Topics/Examples, Broker/Examples: runs on small inputs.
--
-- A locked method is one step, and so is a handler: two handlers that run at the same time come one after
-- the other here, in the order of the actions. Not modelled: read deadlines; listening; the addresses of a
-- connection; what follows the end of the program by a panic or an exit; the connection to RabbitMQ; the
-- protocol name and version of a CONNECT; the start of the program; heimdallr, which is generated.
pub mod Base
pub mod Packets
pub mod Assoc
pub mod Heap
pub mod All
pub mod Utf8
pub mod Topics
pub mod Sessions
pub mod SubMap
pub mod Registry
pub mod Pool
pub mod Auth
pub mod Client
pub mod Broker
pub mod Rabbitmq
pub mod Config
pub mod Examples
