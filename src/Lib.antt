-- ===== src/Lib.antt =====
-- global-egress routes outgoing connections through a pool of exits. A client speaks SOCKS5 or HTTP to
-- internal/proxy, with a selection policy in its user name (internal/policy); the proxy asks the pool
-- (internal/pool) for a lease on an exit, dials through it, and releases it. The pool chooses the exit,
-- keeps the unique-IP batches, the sticky sessions, the cooldowns and the budgets, and takes feedback
-- (Report, Prefer, Rotate) from internal/control.
--
-- Files:
--   Shared        Boolean tests, lists, association lists, texts, results, addresses
--   Policy        internal/policy/policy.go: the policy of a request; Parse: Parse and validate; Safe:
--                 what they ensure; Render: String and LogString
--   Netguard      internal/netguard/netguard.go: the guard of destinations; Ranges: its intervals
--   Georoute      internal/georoute/georoute.go: the prior cost of an entry; Costs: its bounds
--   Socks         the SOCKS5 wire format. Conn: reads and writes; Server: internal/proxy/socks5.go; Client:
--                 internal/socksdial/socksdial.go; RoundTrip: the one against the other
--   Proxy/Auth    internal/proxy/proxy.go: checkClient, authorize; http.go: proxyCredentials
--   Proxy/Upstream   connectUpstream and dialOnce; Guarded: what the guard saw; Leases: the leases held
--   Proxy/Codes   replyCodeFor, statusCodeFor, requestResult
--   Proxy/Headers    the headers of http.go; Splitting: the response to CONNECT, line by line
--   Proxy/Relay   copyWithIdle and relay, with io.Copy as an argument; Sums: their counts
--   Proxy/Handle  SOCKS5Server.handle; Settled: what it leaves behind
--   Proxy/Http    ServeHTTP, handleConnect, handleForward; Settled: what they leave behind
--   Pool/State    internal/pool/pool.go, spec.go, entry.go: the data of the pool
--   Pool/Batch    batch.reserve, addIP, stampLocked, release; Burns: their laws
--   Pool/Preferred   preferredSet; Ring: its size and distinctness
--   Pool/Cooldowns   coolingDown, ipCoolingDownLocked, setIPCooldownLocked, expireLocked
--   Pool/Eligible    eligibleLocked; Admits: its verdict without its side effect; Serves: what the
--                    verdict promises
--   Pool/Budget   the new-tunnel budget and reserveCapacityLocked; Window: the budget over time
--   Pool/Reserve  reserveAcquisitionLocked, its commit and its rollback
--   Pool/Pick     pick with its stages; Outcome, Choice, Burned, Oldest, Sticky, Stages, Whole:
--                 what they return and reserve
--   Pool/Setup    applyDefaults, NewWithSpecs, the specs of internal/pool/spec.go; Ascending: the order of
--                 the slots; Fresh: what a new pool is
--   Pool/Relays   internal/pool/relay_reconcile.go; Kept: what a refresh keeps
--   Pool/Opening  ensureDialer and ensureOpen, and of internal/pool/inventory.go the probes and the sweep of
--                 idle tunnels; Flights: the count of open tunnels; Sound, Upkeep: what is kept;
--                 Admitted, Capacity: openings that interleave; Opened: what one caller gets
--   Pool/Views    Session and Len
--   Pool/Acquire  Acquire, Lease.Release, noteFailure; Backoff: how long a failed slot is left alone;
--                 Balance: what it leaves on the counters
--   Pool/Entries  internal/pool/entry.go: the order of the entry tunnels and their failures; RecordTraffic
--                 and NoteDialFailure; Order: which entry comes first
--   Pool/Feedback    Rotate, Report, Prefer, setPublicIPLocked; Blocks: what a report keeps away
--   Pool/Loads    the counters of the slots, and which operations leave them alone
--   Pool/System   requests in flight as interleaved critical sections; Tally, Limits: the counters;
--                 Semaphore: what the counters stand for, step by step. The sections after a
--                 rollback (noteFailure, dropSession) come at any time and for any slot
--   Examples      concrete pools and requests, with the theorems at them
--
-- How the state corresponds. A method on `Pool` that holds the mutex is a function from the pool to the
-- pool with its result; a method that frees the mutex in between (Acquire) is a step per critical
-- section. The slots are a list in the order of `p.order`, with unique IDs, and a pointer to a slot is
-- its ID; a slot that `pick` returns is the state as it was picked. A Go map is an association list,
-- and the order of its iteration is the order of the list. A pointer to a batch is the batch's `ident`.
-- Times are nanoseconds, with 0 for the zero time, and durations are natural numbers (a negative one is
-- given as 0). Texts are lists of ASCII bytes. The uint64 counters wrap; the int counters, which count
-- connections, do not come near their bound. `rand.IntN n` is a drawn number modulo n. Errors are the
-- constructors of `Error`, without their texts. No definition needs fuel: every loop of the modelled
-- code runs over a list or over the number of attempts.
--
-- Parameters. What `ensureDialer` does while the mutex is free, other requests included, is a function
-- that each attempt of Acquire carries (Pool/Opening models it for slots with a tunnel of their own);
-- so is the dial through a lease, in each attempt to connect. A connection is the bytes that it will
-- deliver and those that were written, with the number of writes that will succeed. What the reads and
-- writes of a running session return is a list of turns, and so is what a caller of ensureOpen meets.
-- io.Copy, netip's ParseAddr and ParsePrefix, net's SplitHostPort, time's ParseDuration and the formatting of
-- durations, addresses and numbers are arguments of the functions that use them.
--
-- Not modelled: WireGuard and the dialing of sockets, the listeners and goroutines of the front ends, the
-- control server, the provider catalogues, configuration and metrics, which are I/O or read-only views;
-- the opening of entry tunnels.
pub mod Shared
pub mod Policy
pub mod Netguard
pub mod Georoute
pub mod Socks
pub mod Proxy
pub mod Pool
pub mod Examples
