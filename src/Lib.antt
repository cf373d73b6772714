-- ===== src/Lib.antt =====
-- dnssec-auditor watches DNSSEC-signed zones: it probes the serials of a zone's servers, transfers
-- the zone whole (AXFR) or in changes (IXFR), verifies it, keeps its findings and its state, and
-- publishes events.
--
-- The parts, and where they are modelled:
-- - Dns: the records of github.com/miekg/dns as data, and the functions of that package that the
--   program calls as the interface DnsLib, with the documented behaviour that is relied on.
-- - DnsName: internal/dnsname/name.go, canonical names.
-- - Zone.RrSet, Zone.Node, Zone.Hash, Zone.Entries, Zone.Store: internal/zone (rrset.go, node.go,
--   nsec3.go, store.go). `add_rr`, `remove_rr` and `apply_changes` are AddRR, RemoveRR and
--   ApplyChanges, which call Node.addPacked and Node.removePacked; the Go map of nodes is an
--   association list. Zone.Index is the ordered map of github.com/tidwall/btree, as an interface
--   that the store takes; Zone.Index.Sorted meets it with sorted lists. Zone.Store.View describes a
--   store by the records that it holds, and Zone.Store.Count has the invariant, which
--   Zone.Store.Changes shows for lists of changes. Zone.Store.Ring has the queries on the NSEC3
--   ring and on the expiries.
-- - Zone.Store.Snapshot: the snapshot files, as bytes.
-- - Zone.Store.Records: the rest of what a store hands out (nodes, keys, NSEC3PARAM, all records).
--   Zone.Canonical: internal/zone/nsec3.go, the canonical order of names and the type bitmaps.
-- - Dnssec.Findings: internal/dnssec/findings.go, the keyed set of findings and MergeReplace.
--   Dnssec.Result: the Result of internal/dnssec/verify.go, and the Verifier as an interface.
-- - Dnssec.Crypto: the functions of miekg/dns and of Go's cryptography that the verifier calls, as an
--   interface without laws. Dnssec.Keys: internal/dnssec/keys.go.
-- - Dnssec.Verify, Dnssec.Apex and Dnssec.Full: internal/dnssec/verify.go: `verify_rrset`,
--   `is_authoritative`, the checks of the keys, `verify_node` and `verify_full`. Dnssec.Denial: nsec.go;
--   Dnssec.Zonemd: zonemd.go; Dnssec.Hygiene: hygiene.go; Dnssec.Incremental: incremental.go, with the
--   sweep, and the verifier that fills the interface of Dnssec.Result. A check returns the findings
--   that it adds, in order, where the source adds them to a set; `add_all` adds them.
--   Dnssec.Codes and the Codes of each check say which codes a check uses; Dnssec.Full.Table has all
--   of them, and that a code settles its severity.
-- - Xfr.Ixfr and Xfr.Client: internal/xfr/client.go. What arrives from the network is an argument: the
--   answers of a probe, and the envelopes of a transfer.
-- - Monitor.Runtime: internal/monitor/runtime.go. Monitor.Serial, Monitor.Manager, Monitor.Refresh and
--   Monitor.Zones: internal/monitor/manager.go. `refresh` is Manager.Refresh, cut at its early returns
--   into `cycle`, `after_probe`, `same_serial`, `transfer`, `install`, `use_result` and `verify_zone`;
--   it returns the zone, the events in the order of their publication, and how the cycle ended.
--   `tick` and `sweep` are what Manager.Run does to a zone at its two tickers.
-- - Config: internal/config/config.go, Normalize, validate and the lookups of servers and keys.
-- - Catalog: internal/catalog/catalog.go, the members of a catalog zone and their changes.
-- - Event: internal/event/bus.go. Webhooks: internal/webhooks/webhooks.go, with HTTP as an argument.
-- - Common: Boolean tests, lists, association lists, Go strings and decimal numbers.
-- - Samples and Tests: a small instance of the interfaces, runs, and the theorems at concrete inputs.
--
-- The parts work together as in the program: a refresh takes the answers of the servers, chooses the
-- best by serial, calls the transfer, applies its changes to the store or takes the new store, hands
-- it to the verifier, and records the result in the zone.
--
-- Conventions. An error or `nil` is `none`. A lock is left out where an operation runs whole under it.
-- Strings are lists of bytes, and names are ASCII. Instants are nanoseconds, 0 being Go's zero time,
-- and the clock is an argument that is read once for an operation. Serials are 32-bit numbers that wrap
-- where serialGreater and the skew compute with them; the base32 buffer wraps at 64 bits. The jitter
-- of the schedule, a floating-point factor, is a function from a delay to a delay.
--
-- Fuel. `decimal` is given one more step than the number, which has fewer digits than that; the inner
-- loop of Base32Hex runs at most twice for each byte and is given three steps.
-- `walk_up`, the loop of isAuthoritative, is given one step more than the name has bytes, and
-- a name has no more labels than bytes.
-- `attempt` of Webhooks is given the number of attempts, as the loop's bound.
--
-- The workers of Full are given by the nodes that each of them took from the channel, in the order in
-- which they finish; their reads and marks of the keys run one worker after the other.
--
-- Not modelled: cryptography, the durations of a verification, TSIG, the interleaving
-- of goroutines inside a refresh cycle, metrics and logging, the reading of YAML, the
-- chain of trust, the one-shot check, the state file, the NOTIFY listener, the HTTP API and its
-- frontend, and the tools that generate zones for tests.
pub mod Common
pub mod Dns
pub mod DnsName
pub mod Zone
pub mod Dnssec
pub mod Xfr
pub mod Monitor
pub mod Event
pub mod Config
pub mod Catalog
pub mod Webhooks
pub mod Samples
pub mod Tests
