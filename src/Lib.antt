-- ===== src/Lib.antt =====
-- Deadlocker runs a scenario of SQL statements step by step on several MySQL connections, one for
-- each actor, and shows what each statement waits for. Every connection goes through a proxy of its
-- own that decodes the packets of the MySQL protocol. This library models the parts of it that have a
-- logic of their own, and proves what makes them correct.
--
-- The parts and how they interact. internal/wire forwards and decodes the packets of one connection;
-- internal/engine keeps the state of a run, the sessions of its actors and of the SQL console, judges
-- the results, and publishes what changes on the run's bus; internal/agentapi has a hub of the same
-- kind for what users and agents do; internal/store keeps the configuration in versions; and
-- internal/casedef has the scenarios that runs are made of.
--
-- The files.
-- Base: lists, byte strings, texts and maps that the other files share. A Go string is its bytes.
-- Wire/Event, Packet, Reader, Values, Decoder, Command, Response, Decode: internal/wire/packet.go and
-- decode.go. `read_packet` is readPacket on a byte sequence and the way it ends; the Reader is the
-- cursor with its first failure; `decode` is connDecoder.decode and hands the state on, where the code
-- changes it in place. `%q` and `%g` of fmt are the parameter `Formats`.
-- Wire/Proxy: internal/wire/proxy.go. A round of a pump reads, writes and decodes one packet; a
-- schedule is the order in which the two pumps finish their rounds.
-- Casedef/Types, Validate: the types and Validate of internal/casedef/case.go; `validate` gives the
-- scenario with its defaults and the problems that Validate joins into its error.
-- Engine/Types, Outcome, Sessions, Locks, Run, Console: internal/engine/run.go, inspect.go and
-- console.go. A method that lets the run's lock go and takes it again (Step, execute, Console,
-- executeConsole, OpenSession) is a function for each of its critical sections: `begin_step`,
-- `settle_step` and `complete_step` are those of Step and execute, `begin_console`, `settle_console`
-- and `complete_console` those of Console and executeConsole. Engine/Run/Reach has the step relation
-- that they make, in any interleaving.
-- Feed, Engine/Bus, Agentapi/Hub: internal/engine/bus.go and internal/agentapi/hub.go. Publish is its
-- part under the lock and the sends behind it, so that a cancelled subscription can come in between; a
-- send to a closed channel is the panic, `none`.
-- Engine/Records, Diff: the records and the log of internal/engine/history.go, and the comparison of
-- two records of internal/engine/diff.go, whose texts are taken to be valid UTF-8.
-- Engine/Locks: Snapshot, which is given the answers to its queries (`take_snapshot`, for the locks and
-- the waits), its sentences and BlockedBy of internal/engine/inspect.go.
-- Engine/Data: Annotate of internal/engine/data.go, which draws a snapshot's locks on the rows of a table,
-- and the parsing of lock data. Names that differ in case are compared as ASCII.
-- Engine/Manager: the open runs of internal/engine/manager.go; a call returns the run that it closes.
-- Agentapi/Jobs: internal/agentapi/jobs.go, over an interface `Runs` of the manager and its runs. Its
-- state `W` is everything that the analysis does not keep itself: the runs, the server, the clock and
-- the context that a cancellation ends. Jobs/Play drives one run (playAll), Jobs/Sweep runs a scenario
-- once per isolation level or version (runSweep) and Jobs/Shrink reduces it (runShrink): `sweep_down`
-- and `reduce_rounds` are its two loops and Shrink/Handler what is around them.
-- Agentapi/Locks: lockView and hasCycle of internal/agentapi/api.go; `visit` is the closure that the
-- search for a cycle recurses on, with the map and the flag that it changes handed on.
-- Store/Config, Store/Scenarios, Store/Drafts: internal/store/store.go, scenarios.go and drafts.go, over
-- interfaces of what they use of bbolt and of encoding/json; Store/Tests and Store/Drafts/Tests have
-- databases that satisfy them.
--
-- Numbers, bounds and fuel. Numbers are natural numbers; the widths that matter (the packet length of
-- three bytes, the length-encoded integers, a version of 64 bits) are written out. The loop over a
-- text row has as fuel the length of the payload, and every round takes a byte of it or fails; the
-- loop of trimStatement has the length of the text, and every round drops a byte. playAll has 81 rounds
-- for each step that the run has left and 81 more, since it gives up after 80 rounds without a step; the
-- outer loop of the reduction has a round more than the scenario has steps, since a round that is
-- followed by another drops one; and the search for a cycle may go as deep as there are actors that
-- wait, and one further.
--
-- What is not modelled. What talks to Docker, MySQL, HTTP clients or a language model; the pages
-- and their handlers; the scenario library on disk; the list of the configuration's versions; the ids of the
-- jobs, and what parses and saves their YAML; the other operations of internal/agentapi/api.go; the queries behind a lock snapshot, and its metadata locks and transactions;
-- of the manager, Start and the container logs. Of a run, the handles of its connections and what
-- only describes it (its database, its image, the progress of its preparation) are left out. Times
-- are numbers that the environment gives.
pub mod Base
pub mod Feed
pub mod Wire
pub mod Casedef
pub mod Engine
pub mod Agentapi
pub mod Store
