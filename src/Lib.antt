-- ===== src/Lib.antt =====
-- A model of the perpx load tester: the parts that decide what is sent, counted, reported and stopped,
-- and which accounts are funded for it, with the theorems that make them correct.
--
-- The parts, and how they interact. A configuration is validated, and then either a standalone
-- group of transactors runs it, or a coordinator hands it to workers. Each worker fills a group with
-- a transactor for each connection to each endpoint; a transactor's loop sends batches of
-- transactions of its client until a limit, an error or a cancellation stops it. The worker reports
-- over its socket to a remote worker, its image at the coordinator, which relays the updates to the
-- coordinator's loop. The clients of the bank module send from accounts that the seeding has funded.
--
-- The files:
--   Config      pkg/loadtest/config.go, client.go: the configurations, Validate, the factories.
--   Kvstore     pkg/loadtest/client_kvstore.go, rand.go: the client of the key-value application.
--   Transactor  pkg/loadtest/transactor.go: sendLoop (run, step), sendTransactions (batch_loop,
--               send_transactions), setStop, close, Wait; Transactor/Connection: NewTransactor, writeTx,
--               receiveLoop.
--   Protocol    pkg/loadtest/states.go, messages.go: what workers and coordinator exchange.
--   Coordinator pkg/loadtest/coordinator.go: registerRemoteWorker (register), waitForWorkers
--               (wait_step, wait_for_workers); Coordinator/Testing: receiveTestingUpdates (test_step,
--               receive_testing_updates), logTestingProgress; Coordinator/Running: Run (run).
--   RemoteWorker pkg/loadtest/remote_worker.go: eventLoop (run), sendCtrlMsg (pass_on).
--   Session     the two together: the calls between pkg/loadtest/coordinator.go and
--               pkg/loadtest/remote_worker.go, and the channels of the coordinator (move, play).
--   Group       pkg/loadtest/transactor_group.go, stats.go: Add, AddAll, Start, Wait, the totals.
--   Worker      pkg/loadtest/worker.go: Run and its parts (connect, register, wait_for_start,
--               execute_load_test); Worker/Interrupts: cancel and the map of interrupts.
--   Peers       pkg/loadtest/tm_network_info.go: resolvePeerMap, filterPeerMap,
--               getMinPeerConnectivity and the loop of waitForNetworkPeers (crawl); Peers/Network:
--               getNetworkPeers and waitForNetworkPeers.
--   Logging     internal/logging/logging.go: the logger, with its maps of fields in a store.
--   Standalone  pkg/loadtest/loadtest.go: ExecuteStandalone.
--   Commands    pkg/loadtest/cli.go, cmd/perpx-load-test/main.go: main, the defaults of the flags, the
--               exit codes of the commands.
--   Tui         pkg/loadtest/tui.go: a tick of the terminal UI (draw), its start and its stop.
--   Rpc         pkg/loadtest/rpc.go: the types of a node's answers, their decoders, netInfo.
--   Websockets  pkg/loadtest/websockets.go: simpleSocket, with Run and readPump (run, step), close
--               (begin_close, send_close), Read and Write.
--   Seed        pkg/seed/seed.go: parseArgs, the keys and URLs; Seed/Funding and Seed/Delivery:
--               seedAccounts up to its first batch (plan), its batches (fund_from) and its last
--               check, and Run (run). The loop has as fuel the number of accounts that need funds.
--   Bank        pkg/client/factory.go, pkg/client/bank_client.go, pkg/strategies/bank_send.go:
--               NewClient (new_client), ensureAccountQueried, GenerateTx (generate_tx).
--   Base        shared helpers: lists, maps as association lists, 64-bit integers, error results.
--   Samples     configurations for the examples.
--
-- How the state is modelled. A struct is a record, a method a function from the state to the next
-- one. A select loop is a function over the list of events that it takes, in their order, so that a
-- theorem about all lists is one about all interleavings; the loops need no fuel, since they recur on
-- that list. What a connection, a clock, a random source, a name service or an interrupt gives comes
-- with the event or in a record of the surroundings. A Go map is a list with distinct keys, in the
-- order in which a range visits it. An int is an integer with the wrap-around of 64 bits written out
-- (add_int64, sub_int64), a uint64 a number modulo 2^64. Times are nanoseconds, and a rate is the exact
-- quotient that the program rounds to a float64. An error is a constructor for each text.
--
-- A message is with its reader only where the write of it succeeds; an error that is set on a transactor
-- whose result `Wait` has read already reaches no one, so that a cancellation leaves such a one out.
--
-- Not modelled: mutexes (each operation is taken as atomic), the bounds of the channels' buffers but
-- those of the sockets (whose sizes are taken to be positive), the Prometheus library, JSON and HTTP,
-- the Cosmos SDK, what logrus writes, the frames of the web sockets, the reading of the command line's
-- flags but those of the seeding, signals, the wait of a coordinator after its test, and the text that
-- the terminal UI prints. What the callbacks of a running group have tracked is overwritten by Wait, so
-- that it is not modelled before Wait: the totals of a worker's reports come with its ticks.
pub mod Bank
pub mod Base
pub mod Config
pub mod Kvstore
pub mod Logging
pub mod Transactor
pub mod Protocol
pub mod Coordinator
pub mod RemoteWorker
pub mod Group
pub mod Worker
pub mod Peers
pub mod Rpc
pub mod Seed
pub mod Standalone
pub mod Websockets
pub mod Session
pub mod Tui
pub mod Commands
pub mod Samples
