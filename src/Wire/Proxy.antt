-- ===== src/Wire/Proxy.antt =====
-- The proxy of one actor (wire/proxy.go): two pumps, one for each direction, that share the
-- connection's decoder. A schedule is the order in which the pumps finish their rounds; a round
-- reads a packet, forwards it and decodes it, and the decoder's mutex makes the last one step.
pub mod Transparent
pub mod Numbering
use deadlocker.Base.{
  ℕ, ◌+◌, ◌==◌, Bool, true, false, not, ◌&&◌, ◌||◌, Option, none, some, List, [], ◌∷◌, ◌++◌, Bytes,
  has_prefix, decimal, if◌then◌else◌, str,
}
use deadlocker.Wire.Event.{
  Direction, client_to_server, server_to_client, Event, Decoder, Formats, new_conn_decoder,
}
use deadlocker.Wire.Packet.{
  Packet, Source, ReadError, at_eof, unexpected_eof, transport, got, bad, read_packet,
}
use deadlocker.Wire.Decode.{blank_event, decode, next_index}

-- `strings.Contains`.
unfoldable pub contains : Bytes → Bytes → Bool
contains [] pattern = has_prefix [] pattern
contains (c ∷ s) pattern = has_prefix (c ∷ s) pattern || contains s pattern

unfoldable pub is_closed_conn_err : Bytes → Bool
is_closed_conn_err s =
    contains s (str "use of closed network connection")
    || contains s (str "connection reset by peer")
    || contains s (str "broken pipe")

-- One pump: what is left to read, what was written to the peer, and whether it still runs.
pub record Pump : Type 0 where
  pub source : Source
  pub written : Bytes
  pub running : Bool

pub record Connection : Type 0 where
  pub upstream : Pump
  pub downstream : Pump
  pub decoder : Decoder
  pub events : List Event

-- An error event; it has no index, and only its direction, kind and summary are set.
unfoldable pub proxy_error : Decoder → Direction → ℕ → Bytes → Event
proxy_error d dir now summary =
    record (blank_event (record d { index = 0 }) (some dir)
      (record { seq = 0; payload = []; raw = [] }) now (str "command")) {
        kind = str "ProxyError";
        summary = summary;
      }

unfoldable pub report_read : ReadError → Decoder → Direction → ℕ → List Event
report_read at_eof d dir now = []
report_read unexpected_eof d dir now = []
report_read (transport text) d dir now =
    if is_closed_conn_err text then [] else proxy_error d dir now (str "read: " ++ text) ∷ []

unfoldable pub report_write : Bytes → Decoder → Direction → ℕ → List Event
report_write text d dir now =
    if is_closed_conn_err text then [] else proxy_error d dir now (str "write: " ++ text) ∷ []

-- What the environment answers to a round: the error of the write, if it fails, and the time.
pub record Round : Type 0 where
  pub direction : Direction
  pub write_error : Option Bytes
  pub now : ℕ

unfoldable pub pump_of : Direction → Connection → Pump
pump_of client_to_server c = c.upstream
pump_of server_to_client c = c.downstream

unfoldable pub set_pump : Direction → Pump → Connection → Connection
set_pump client_to_server p c = record c { upstream = p }
set_pump server_to_client p c = record c { downstream = p }

unfoldable pub stop_pump : Direction → Connection → List Event → Connection
stop_pump dir c reported =
    let stopped = set_pump dir (record (pump_of dir c) { running = false }) c in
    record stopped { events = c.events ++ reported }

-- The packet is forwarded first, and decoded after that.
unfoldable pub forward :
    Formats → Connection → Direction → ℕ → Option Bytes → Packet → Source → Connection
forward std c dir now (some text) pkt rest =
    let seen = set_pump dir (record (pump_of dir c) { source = rest }) c in
    stop_pump dir seen (report_write text c.decoder dir now)
forward std c dir now none pkt rest =
    let pump = pump_of dir c in
    let moved = set_pump dir (record pump { source = rest; written = pump.written ++ pkt.raw }) c in
    let (decoder, ev) = decode std c.decoder dir pkt now in
    record moved { decoder = decoder; events = c.events ++ (ev ∷ []) }

unfoldable pub pump_round : Formats → Connection → Round → Connection
pump_round std c t =
    let pump = pump_of t.direction c in
    if not pump.running then c else elim (read_packet pump.source) [
      | bad e ↦ stop_pump t.direction c (report_read e c.decoder t.direction t.now)
      | got pkt rest ↦ forward std c t.direction t.now t.write_error pkt rest
    ]

unfoldable pub run_rounds : Formats → Connection → List Round → Connection
run_rounds std c [] = c
run_rounds std c (t ∷ ts) = run_rounds std (pump_round std c t) ts

-- The event that opens a connection.
unfoldable pub opened_event : Decoder → ℕ → Bytes → Event
opened_event d now target =
    record (blank_event d none (record { seq = 0; payload = []; raw = [] }) now (str "handshake")) {
      kind = str "ConnectionOpened";
      summary = str "TCP connection established to " ++ target;
    }

unfoldable pub open_connection : Bytes → Bytes → Bytes → ℕ → Source → Source → Connection
open_connection id actor target now from_client from_server =
    let d = new_conn_decoder id actor in
    record {
      upstream = record { source = from_client; written = []; running = true };
      downstream = record { source = from_server; written = []; running = true };
      decoder = d;
      events = opened_event d now target ∷ [];
    }

-- The event that closes it, when both pumps have returned.
unfoldable pub close_connection : Connection → ℕ → Connection
close_connection c now =
    let (d, index) = next_index c.decoder in
    if c.upstream.running || c.downstream.running then c else record c {
      decoder = d;
      events =
          c.events
          ++ (record (blank_event d none (record { seq = 0; payload = []; raw = [] }) now
                (str "command")) {
                  index = index;
                  kind = str "ConnectionClosed";
                  summary = str "connection closed";
                }
              ∷ []);
    }

-- The id of the n-th connection of a proxy.
unfoldable pub conn_id_of : Bytes → ℕ → Bytes
conn_id_of actor n = actor ++ str "#" ++ decimal n

-- `handle`: the events of one client, given the error of the dial, if it fails, the schedule and
-- what the two peers send.
unfoldable pub handle :
    Formats → Bytes → Bytes → ℕ → ℕ → Option Bytes → List Round → Source → Source → List Event
handle std actor target now n (some text) ts from_client from_server =
    record (blank_event (new_conn_decoder (conn_id_of actor 0) actor) none
      (record { seq = 0; payload = []; raw = [] }) now (str "handshake")) {
        kind = str "ProxyError";
        summary = str "could not reach MySQL at " ++ target ++ str ": " ++ text;
      }
    ∷ []
handle std actor target now n none ts from_client from_server =
    (close_connection
      (run_rounds std
        (open_connection (conn_id_of actor n) actor target now from_client from_server) ts)
      now).events
