-- ===== src/Lib.antt =====
-- CPanelde, the node agent of a proxy panel: the parts that decide what a node does.
--
-- The panel (or a machine-wide agent) hands a node its configuration, its users and the devices
-- that are in use elsewhere. `internal/agentv2` carries these messages under encryption;
-- `internal/controlplane` turns them into events and coalesces them in a mailbox; `internal/model`
-- checks the configuration; `internal/limiter` turns the users into speed and device limits;
-- the connection tracker of `internal/kernel/singbox` applies them to connections and counts
-- traffic; `internal/tracker` turns the counters into reports to the panel.
-- `internal/service` is the node service between them: it applies configurations and users to a
-- kernel, takes them back when the kernel refuses, and sends the reports. `internal/kernel/xray`
-- counts and limits the connections of the other kernel, and reload.go of
-- `internal/kernel/singbox` replaces outbounds while it runs. `internal/deviceplatform` and
-- `internal/machine` run the nodes of a whole machine, each for one kind of panel.
--
-- Files:
-- AgentV2: internal/agentv2/protocol.go. Word and Replay are `replayWindow` (`accept`), Wire the
--   byte layout (`appendField`, `RequestTranscript`, `ResponseTranscript`), Session
--   `deriveSession`, `Seal` and `Open`. Delivery and Once hold proofs. HKDF and AES-GCM are the
--   records `Crypto` and `Aead`: opening undoes sealing, and the tag takes sixteen bytes.
-- ControlPlane: `Delta` is `applyUserDelta` and `Mailbox` is `NodeMailbox` of
--   internal/controlplane/mailbox.go, with the events of types.go. Platform is device_platform.go
--   (`ReportApplication`, `flushApplications`, `ReportDevices`). Their children hold proofs.
-- Limiter: `Users` is internal/limiter/limiter.go, `Speed` is speedtracker.go. Devices and Rates
--   hold proofs.
-- Kernel: `ConnTracker` and its child Conns are internal/kernel/singbox/conntracker.go. Gate,
--   Counts, Tally and Life hold proofs. `XrayDispatcher` is internal/kernel/xray/dispatcher.go
--   (`checkDeviceLimit`, `delConn`, `Dispatch`, `DispatchLink`), and its children Counts, Refs,
--   Rank, Balance and Dispatch hold proofs. `Outbounds` and its child Reload are
--   internal/kernel/singbox/reload.go (`orderedOutbounds`, `replaceOutbounds`,
--   `removeObsoleteOutbounds`); Visit, Fuel, Acyclic, Order and Replace hold proofs.
-- Tracker: internal/tracker/tracker.go. Ledger and Alive hold proofs.
-- Model: `Types`, `Ports`, `Routes`, `Support` and `Outbounds` are types.go, custom_route.go,
--   custom_route_validate.go, custom_route_support.go, custom_outbound_support.go,
--   custom_outbound_validate.go, and parts of validate.go and custom_config_tags.go, of
--   internal/model. Accepted holds proofs.
-- DevicePlatform: internal/deviceplatform. Nodes is the table of nodes of orchestrator.go
--   (`startNode`, `stopNode`, `rediscover`, `reconcileNodeSpec`), Cursor `advanceCursor` and
--   `applyIntervals`, Upgrade the files of upgrade_state.go and the checks of upgrade.go, Commands
--   `handleCommands` and `reportPendingUpgrade`. Discovery, Restart and Reports hold proofs.
-- Machine: internal/machine/machine.go (`startNode`, `stopNode`, `rediscover`, `onWSEvent`). Its
--   children Rediscover and Route hold proofs.
-- Service: internal/service/service.go. Backoff is `apiBackoff`, Reports `beginReport` and
--   `completeReport` with the two ways to push, Hashes `computeUserHash`, Runtime
--   `validateNodeRuntime`, Users `applyUserUpdate` and `applyUserDelta`, Pull `applyPullResult`,
--   Events `handleWSEvent`, `drainMachineMailbox` and `handleWSStatus`, Setup `initialSetup`. The
--   kernel is the record `Kernel`, the interface of internal/kernel/kernel.go, and every call of it
--   may fail. Exact, Needs, Runnable, Kernels, Sync, Keeps, Taken, Effect, Rollback, Lost, Life and
--   Outcome hold proofs.
-- Prelude: shared helpers. A Go map is an association list, a text a list of character codes, an
--   int an integer over the native numbers, a set of texts a list.
-- Tests: the theorems at concrete inputs.
--
-- State is passed explicitly: an operation takes the record and returns it, with its result. A lock
-- makes each operation one step, so a sequence of steps is an interleaving. A value that may be nil
-- is an `Option`. Copies that the code makes to avoid sharing are the values themselves.
--
-- Bounds: sequence numbers wrap at 2 ^ 64, and the replay window is a word of 64 bits. Byte
-- counters, user ids and rates are natural numbers, as an int64 holds them where they occur. Texts
-- are folded and trimmed as ASCII. Times are whole seconds. The visits of the outbounds run on
-- fuel, one more than there are outbounds: a tag is entered only once, so no path of visits is
-- longer. All other loops are structural recursion. Idempotency keys and batch ids are numbers that
-- were not given before.
--
-- Not modelled: input and output (HTTP, WebSocket, files, logs), the waiting for rate tokens, the
-- signatures and the key exchange of the handshake, the shell command of an upgrade, the generated
-- configurations of the two kernels, the conversion of the panel's and the file's formats, the
-- reading of the configuration file, the tickers of the node service and its search for a push
-- client, certificates, the table of DNS providers, the checks of releases, the command line, and
-- the third-party code.
pub mod Prelude
pub mod Model
pub mod AgentV2
pub mod ControlPlane
pub mod Limiter
pub mod Kernel
pub mod Tracker
pub mod DevicePlatform
pub mod Machine
pub mod Service
pub mod Tests
