-- ===== src/Wire/Proxy/Transparent.antt =====
-- What the proxy forwards, against what it reads (wire/proxy.go).
use deadlocker.Base.{
  ℕ, ◌≡◌, refl, ◌∙◌, true, false, Option, none, some, List, [], ◌∷◌, ◌++◌, Bytes, append_assoc,
  Bool-cases, inl, inr,
}
use deadlocker.Wire.Event.{Direction, client_to_server, server_to_client, Event, Formats}
use deadlocker.Wire.Packet.{Packet, Source, ReadResult, got, bad, read_packet}
use deadlocker.Wire.Packet.Framing.{Splits, read_packet-Splits}
use deadlocker.Wire.Proxy.{
  Pump, Connection, Round, report_read, pump_of, set_pump, stop_pump, forward, pump_round,
  run_rounds,
}

-- `sent` is all that one peer sends. What was written is a prefix of it; while the pump runs the
-- rest is what it has still to read.
pub record IsIntact (sent : Bytes) (p : Pump) : Type 0 where
  pub lost : Bytes
  pub accounts : p.written ++ (lost ++ p.source.bytes) ≡ sent
  pub nothing_lost : p.running ≡ true → lost ≡ []

abbrev pub Intact : Bytes → Bytes → Connection → Type 0
Intact up down c = IsIntact up c.upstream × IsIntact down c.downstream

stop-IsIntact :
    (sent : Bytes) (p : Pump) → IsIntact sent p → IsIntact sent (record p { running = false })
stop-IsIntact sent p k = record { lost = k.lost; accounts = k.accounts; nothing_lost = λ e. cc }

-- A packet that was read and could not be written is lost, and its pump stops.
drop-IsIntact :
    (sent : Bytes) (p : Pump) (pkt : Packet) (rest : Source)
    → p.running ≡ true
    → IsIntact sent p
    → Splits p.source (got pkt rest)
    → IsIntact sent (record p { source = rest; running = false })
drop-IsIntact sent p pkt rest on k sp = record {
  lost = pkt.raw;
  accounts = rw sp.0 (rw (k.nothing_lost on) at k.accounts);
  nothing_lost = λ e. cc;
}

move-IsIntact :
    (sent : Bytes) (p : Pump) (pkt : Packet) (rest : Source)
    → p.running ≡ true
    → IsIntact sent p
    → Splits p.source (got pkt rest)
    → IsIntact sent (record p { source = rest; written = p.written ++ pkt.raw })
move-IsIntact sent p pkt rest on k sp = record {
  lost = [];
  accounts =
      append_assoc p.written pkt.raw rest.bytes ∙ rw sp.0 (rw (k.nothing_lost on) at k.accounts);
  nothing_lost = λ e. refl;
}

forward-Intact :
    (std : Formats) (up down : Bytes) (c : Connection) (dir : Direction) (now : ℕ)
    (w : Option Bytes) (pkt : Packet) (rest : Source)
    → (pump_of dir c).running ≡ true
    → Splits (pump_of dir c).source (got pkt rest)
    → Intact up down c
    → Intact up down (forward std c dir now w pkt rest)
unfolding forward stop_pump pump_of set_pump
forward-Intact std up down c client_to_server now (some text) pkt rest on sp (u, v) =
    (drop-IsIntact up c.upstream pkt rest on u sp, v)
forward-Intact std up down c server_to_client now (some text) pkt rest on sp (u, v) =
    (u, drop-IsIntact down c.downstream pkt rest on v sp)
forward-Intact std up down c client_to_server now none pkt rest on sp (u, v) =
    (move-IsIntact up c.upstream pkt rest on u sp, v)
forward-Intact std up down c server_to_client now none pkt rest on sp (u, v) =
    (u, move-IsIntact down c.downstream pkt rest on v sp)

stop-Intact :
    (up down : Bytes) (c : Connection) (dir : Direction) (reported : List Event)
    → Intact up down c
    → Intact up down (stop_pump dir c reported)
unfolding stop_pump pump_of set_pump
stop-Intact up down c client_to_server reported (u, v) = (stop-IsIntact up c.upstream u, v)
stop-Intact up down c server_to_client reported (u, v) = (u, stop-IsIntact down c.downstream v)

-- A round by what the pump reads.
round-Intact :
    (std : Formats) (up down : Bytes) (c : Connection) (t : Round)
    → Intact up down c
    → Intact up down (pump_round std c t)
unfolding pump_round
round-Intact std up down c t k = elim (Bool-cases (pump_of t.direction c).running) [
  | inl on ↦ rw on (
      reads (read_packet (pump_of t.direction c).source)
        (read_packet-Splits (pump_of t.direction c).source) on)
  | inr off ↦ rw off k
]
  where
    reads :
        (r : ReadResult)
        → Splits (pump_of t.direction c).source r
        → (pump_of t.direction c).running ≡ true
        → Intact up down (elim r [
          | bad e ↦ stop_pump t.direction c (report_read e c.decoder t.direction t.now)
          | got pkt rest ↦ forward std c t.direction t.now t.write_error pkt rest
        ])
    reads (bad e) sp on = stop-Intact up down c t.direction _ k
    reads (got pkt rest) sp on =
        forward-Intact std up down c t.direction t.now t.write_error pkt rest on sp k

-- From a connection that is intact, under every schedule of the two pumps and whatever fails: each
-- direction has written a prefix of what its peer sent, in order and unchanged, and a pump that
-- still runs has lost nothing.
pub run_rounds-Intact :
    (std : Formats) (up down : Bytes) (c : Connection) (ts : List Round)
    → Intact up down c
    → Intact up down (run_rounds std c ts)
unfolding run_rounds
run_rounds-Intact std up down c [] k = k
run_rounds-Intact std up down c (t ∷ ts) k =
    run_rounds-Intact std up down (pump_round std c t) ts (round-Intact std up down c t k)
