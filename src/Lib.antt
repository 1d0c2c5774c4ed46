-- ===== src/Lib.antt =====
-- A model of the Citadel agent: the pure cores of its internal service and the egress policy of
-- its apps, with the theorems that make them correct.
--
-- The agent holds a user's sessions with Citadel servers for the windows of a web page. A
-- supervisor for each session probes the server, heals a link that died, dials the peers of the
-- session and upgrades peers from a relay to a direct path. A session that its server dropped is
-- brought back by a reconnect run. Media frames go to a window through a bounded lane. What an app
-- in the page may fetch is decided by the egress policy.
--
-- Supervisor models citadel-internal-service/src/kernel/supervisor: Types is types.rs (Input,
-- Command, SupervisorEvent, Millis as a number), Policy is policy.rs, Backoff and Peer are
-- core/peer.rs (Rng, Rng::delay, Retry, Peer), PeerMap is the BTreeMap of core/mod.rs, and the
-- modules below Core are core/mod.rs (State, Step), core/handlers.rs (Peers), core/link.rs (Link)
-- and core/drive.rs (Drive). Core::step takes the core and an input to the core after it and the
-- commands; `run` folds it over a list of inputs. Healing, Dials, Wake, Order, Invariant,
-- Ended and Frame hold proofs. The shell that executes the commands, with its tasks, clocks and
-- channels, is not modelled.
--
-- Reconnect models kernel/reconnect/policy.rs whole (Policy, Failure) and the loop of `run` in
-- kernel/reconnect/task.rs (Run), where what the loop awaits is an event: how long the turn took
-- and how it ended. The SDK's error codes with the texts they render are the record ErrorRegistry,
-- its keep-alive constants are parameters. SignIn is
-- kernel/reconnect/sign_in.rs. Installing a link and the steps of a takeover are not modelled.
--
-- Media models kernel/media/lane.rs by the steps that its mutex and its signal channel make
-- atomic, while some producer is alive.
--
-- NetPolicy models the crate citadel-app-net-policy: Url is url.rs, Ranges with its Tables is
-- ranges.rs, Grant is grant.rs, Headers is headers.rs, Decide is decide.rs and Limits the
-- constants of lib.rs. Allowed::follow, which prints a redirect's location, is not modelled.
--
-- AppNet models kernel/apps/net/rate.rs: Rate is RateLimiter with `admit`, a hash map being a list
-- of its entries (Assoc); Retain, Admit, Window and Caps hold proofs.
--
-- Subscribers models kernel/session_subscribers.rs, the windows of a session; its lock makes each
-- call one step. Order and Members hold proofs.
--
-- Fanout models citadel-app-sdk/src/ihttp/fanout_plan.rs, the book-keeping of a call to many
-- targets, by every call of its plan; Targets, Parts and Life hold proofs. Its map is the one of
-- Supervisor.PeerMap.
--
-- Cbor models kernel/conversations/cbor.rs and, in Decode, cbor_decode.rs, the bytes of a stored
-- list and of a command to a peer; Utf8 is the check of `str::from_utf8`. A float is its 64 bits;
-- what a single precision float widens to and the bits of NaN are the record Floats.
-- The decoder's depth is its fuel: the source ends there too, with an error. Bytes, Valid,
-- Headers, RoundTrip, Extend, Widened and Sound hold proofs. The conversions of JS numbers are not modelled.
--
-- Staged models kernel/staged_uploads.rs and, of kernel/requests/file/staged_upload.rs, what `stage`
-- and `start` do to a session's table and to the service's counter of reserved bytes, each stretch
-- under a lock or before an await one step; what the disk holds and whether a write succeeds are
-- inputs. What other sessions, files that come in one piece and uploads taken for sending have
-- reserved is one number, with steps that change it. Life follows one upload id with the contents of
-- its file; there a first chunk is planned and put on disk in one turn, since all that can come in
-- between changes only the counter, which is held against any number of bytes on disk.
-- Accounts, Plan, Whole and Chunks hold proofs.
--
-- Pulled models kernel/pulled_reads.rs, its hash map a list of entries (Assoc); as many rounds of the
-- evicting loop as there are entries are enough. Cap, OneKey and Exclusive hold proofs.
--
-- AppId models citadel-app-id/src/lib.rs and, in Namespace, kernel/apps/kv/namespace.rs, over ASCII
-- texts; the crate hex is the record HexEncoder. Grammar, Version and Apart hold proofs.
--
-- Watchdog models updater/watchdog.rs over what its WatchIo answers in each turn of its two loops.
-- The fuel of a loop is a bound on its turns, enough as its time is bounded and a pause takes some.
-- Ends and Restores hold proofs.
--
-- Store models loading, appending and finding in kernel/conversations/store.rs and store_rules.rs,
-- for the records of one account and one peer: an append is the list of its writes, so that it can
-- stop after any of them. JS numbers and the u32 page numbers are natural numbers there, without
-- their bounds. Pages, Kept, Grown and
-- Redelivery hold proofs.
--
-- Grants models kernel/apps/net/grants.rs, by the calls that take its lock; Told holds the proofs.
--
-- Notices models kernel/notices/decide.rs; Private holds the proofs.
--
-- Prelude, Time, Bits and Text are shared: tests on numbers, Rust's Duration as nanoseconds and
-- saturating arithmetic, masks of leading ones, and `str` as a list of bytes. Machine integers are
-- natural numbers with the wrap-around or the saturation of the source written out, but for the
-- page numbers of Store. Texts that the code compares and splits are ASCII. Other loops are
-- structural recursion.
--
-- Not modelled: request handlers, sockets, files and the rest of the stores, telemetry, the updater
-- but for its watchdog, the connector and the rest of the apps' typed SDK, which are I/O or calls of
-- other libraries, or await a model.
pub mod Prelude
pub mod Time
pub mod Bits
pub mod Text
pub mod Supervisor
pub mod NetPolicy
pub mod Reconnect
pub mod Media
pub mod Assoc
pub mod AppNet
pub mod Subscribers
pub mod Fanout
pub mod Cbor
pub mod Staged
pub mod Pulled
pub mod AppId
pub mod Watchdog
pub mod Store
pub mod Grants
pub mod Notices
