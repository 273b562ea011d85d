-- ===== src/Lib.antt =====
-- mpcium, an engine for threshold signatures: a cluster of nodes that generate private keys
-- jointly, sign with them and hand them on to other committees, while no node ever holds a whole
-- key.
--
-- The parts and how they interact. Every node keeps a registry of the peers that are ready, from
-- their keys in Consul and from health checks. Requests of clients come in over JetStream; a
-- consumer passes a request on, with a reply inbox, to the event consumers of the nodes and
-- settles it by the reply. The event consumer verifies the initiator and the authorizers of a
-- request, guards against duplicates, and asks the node for a session; the node makes one of the
-- ready peers, of the key info that Consul keeps, and of party ids, which pack a node id and a
-- key version. Before that, the nodes exchange ephemeral keys and derive a symmetric key for each
-- pair. A session hands what the party of tss-lib has to send to the other nodes, broadcasts
-- signed and messages to one node encrypted, and gives what it receives to its party; at its end
-- the share goes to the node's key-value store and the key info to Consul. Results are enqueued
-- under subjects that are scoped by the client. The node's store is backed up into encrypted
-- files that can be restored. The wallet API is a client of its own: it builds a transfer, has
-- its hash signed by the cluster, and broadcasts it.
--
-- The files, each with the code that it is about:
-- - Base: helpers. Go strings are lists of bytes, maps are association lists that iterate in the
--   order of insertion, results with an error are values of Outcome.
-- - Text: the parts of math/big, strconv and strings that the code uses, over bytes.
-- - Registry: pkg/mpc/registry.go, NewRegistry, the tick of WatchPeersReady (watch_tick), the
--   readiness tests; Registry/Health its health checks; with the arrival of a key in
--   pkg/mpc/key_exchange_session.go.
-- - Party: pkg/mpc/party_id.go, createPartyID, partyIDToNodeID, generatePartyIDs.
-- - Keyinfo: pkg/keyinfo/keyinfo.go, Get and Save.
-- - Node: pkg/mpc/node.go, CreateKeyGenSession, CreateSigningSession and CreateReshareSession
--   (Node/Sessions), and when each opens a session (Node/Keygen, Node/Signing, Node/Reshare).
-- - Event: pkg/event/result_topics.go and GetErrorCodeFromError of pkg/event/types.go.
-- - Consumer: pkg/eventconsumer, the table of active sessions of event_consumer.go;
--   Consumer/Keygen its handleKeyGenEvent, Consumer/Signing its handleSigningEvent and
--   Consumer/Resharing the handler in its consumeReshareEvent; Consumer/Bridge the handlers of
--   sign_consumer.go and keygen_consumer.go; Consumer/Authority the three handlers together with
--   the checks of Identity.
-- - Encryption: pkg/encryption/aes.go.
-- - Identity: pkg/identity/identity.go, VerifyInitiatorMessage, AuthorizeInitiatorMessage and
--   VerifyMessage, with ComposeAuthorizerRaw of pkg/types/initiator_msg.go; Identity/Messages the
--   symmetric keys, signing and sealing, Identity/Sealing sealing between two nodes.
-- - Exchange: pkg/mpc/key_exchange_session.go, the broadcast of ephemeral keys
--   (broadcast_public_key) and the handler of ListenKeyExchange (receive); Exchange/Agreement two
--   nodes together.
-- - Session: pkg/mpc/session.go; Session/Topics the topic composers of the six session
--   constructors, Session/Rounds ecdsa_rounds.go and eddsa_rounds.go, Session/Messages
--   handleTssMessage and the three methods that receive, Session/Delivery a sender and a receiver
--   together, Session/Barrier WaitForPeersReady, Session/Listening the subscriptions and Close,
--   Session/Closing any order of them, Session/Safety what may leave a node and what may change
--   its session, Session/Signatures the end of Sign.
-- - Shares: what the sessions of pkg/mpc store and load: the ends of GenerateKey
--   (generate_key_end) and Reshare (reshare_end), Init of signing (init_signing),
--   loadOldShareDataGeneric; Shares/Cluster the key-value stores of all nodes with the Consul
--   that they share, Shares/Storing what one node's end writes, Shares/Refinement any history of
--   ends at all nodes, Shares/Atomicity a resharing of which some calls fail.
-- - Encoding: pkg/encoding/ecdsa.go.
-- - Derivation: pkg/ckdutil/child_derivation.go; Derivation/Secret the derivation of the secret
--   key that it is compared with.
-- - Backup: pkg/kvstore/badger_backup.go, Execute and its helpers; Backup/Restore
--   loadEncryptedBackup and RestoreAllBackupsEncrypted, Backup/Format the bytes of a file,
--   Backup/History runs one after another with the restoring, Backup/Broken a write that breaks
--   off.
-- - Client: pkg/client/client.go and local_signer.go with pkg/types/initiator_msg.go;
--   Client/Signed what is signed, together with the checks of Identity.
-- - Results: pkg/messaging/message_queue.go, pkg/eventconsumer/timeout_consumer.go, the names of
--   consumers in pkg/messaging/jetstream_broker.go, and OnSignResult of pkg/client/client.go;
--   Results/TimedOut follows the result of a failed request to the wallet API.
-- - Messaging: pkg/messaging/point2point.go, Listen and SendToSelf; Messaging/Handlers what
--   SendToSelf calls after any history.
-- - Requests: wallet-api/pkg/mpc/client.go; Requests/Clients any history of requests and results.
-- - Transaction: wallet-api/pkg/transaction; Transaction/Tokens tokens.go, Transaction/Counter
--   the nonces of builder.go, Transaction/Assembly assembler.go, Transaction/Pipeline
--   BuildERC20Transfer and Send, Transaction/Replacement CancelTx and SpeedUpTx.
--
-- State and effects. A handler is a function of the state, of the request and of a record of what
-- its calls return; it gives the new state and the list of the calls that it makes to the
-- outside, in their order. What goroutines do between two points of a handler stands in that list
-- before what the handler itself does next, and where a select has several ready branches the one
-- that it takes is an input.
--
-- Bounds and fuel. Only WaitForPeersReady runs on fuel, one unit for a request to a peer, and
-- more than the number of requests that fit before the deadline is enough: the other loops of the
-- code are over lists, and the polling loop is over the answers that come in before its deadline.
-- The counters of the registry are natural numbers, as the code only takes differences of them
-- that are not negative. Versions of keys are natural numbers, texts are ASCII where case or
-- white space matters.
--
-- Parameters. The libraries that the repository does not hold: the order of tss.SortPartyIDs and
-- the random ids, lo.Difference, encoding/json of key infos, results, payloads, messages and
-- shares, the signature schemes, X25519, HKDF and AES-GCM, the parties of tss-lib, and go-
-- ethereum; what PostgreSQL, Redis and the chain answer is an input. What is assumed of them is
-- documented: what is marshalled is read back, Open undoes Seal, X25519 is a Diffie-Hellman
-- exchange.
--
-- Not modelled: the cryptographic protocols themselves and the goroutines around the sessions, a
-- message without a sender (on which the checks dereference a nil pointer), the derivation of
-- child keys inside a node, the accounts, handlers and queries of the wallet API, what BadgerDB
-- and JetStream do, the commands, and all plain input and output.
pub mod Base
pub mod Text
pub mod Registry
pub mod Party
pub mod Keyinfo
pub mod Node
pub mod Event
pub mod Consumer
pub mod Encryption
pub mod Identity
pub mod Exchange
pub mod Session
pub mod Shares
pub mod Encoding
pub mod Derivation
pub mod Backup
pub mod Transaction
pub mod Requests
pub mod Client
pub mod Results
pub mod Messaging
