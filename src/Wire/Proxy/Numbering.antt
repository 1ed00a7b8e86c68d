-- ===== src/Wire/Proxy/Numbering.antt =====
-- The numbers on the decoded packets of a connection (wire/proxy.go, wire/decode.go).
use deadlocker.Base.{
  ℕ, zero, suc, ◌==◌, ◌≡◌, refl, ◌∙◌, Option, none, some, List, [], ◌∷◌, ◌++◌, Bytes, if◌then◌else◌,
  arith, append-nil, Bool-cases, inl, inr,
}
use deadlocker.Wire.Event.{Direction, client_to_server, server_to_client, Event, Decoder, Formats}
use deadlocker.Wire.Packet.{
  Packet, Source, ReadError, at_eof, unexpected_eof, transport, ReadResult, got, bad, read_packet,
}
use deadlocker.Wire.Decode.{decode, blank_event}
use deadlocker.Wire.Decode.Identity.{decode-stamp}
use deadlocker.Wire.Proxy.{
  Connection, Round, proxy_error, report_read, report_write, pump_of, set_pump, stop_pump, forward,
  pump_round, run_rounds,
}

-- The indices of the events that have one: errors and the opening of a connection carry 0.
unfoldable pub numbers : List Event → List ℕ
numbers [] = []
numbers (e ∷ es) = if e.index == 0 then numbers es else e.index ∷ numbers es

numbers-append : (xs ys : List Event) → numbers (xs ++ ys) ≡ numbers xs ++ numbers ys
unfolding numbers
numbers-append [] ys = refl
numbers-append (x ∷ xs) ys = ground (arith, numbers-append xs ys)

-- 1, 2, … n.
unfoldable pub up_to : ℕ → List ℕ
up_to zero = []
up_to (suc n) = up_to n ++ (suc n ∷ [])

abbrev pub Numbered : Connection → Type 0
Numbered c = numbers c.events ≡ up_to c.decoder.index

report_read-numbers :
    (e : ReadError) (d : Decoder) (dir : Direction) (now : ℕ)
    → numbers (report_read e d dir now) ≡ []
unfolding report_read numbers proxy_error blank_event
report_read-numbers at_eof d dir now = refl
report_read-numbers unexpected_eof d dir now = refl
report_read-numbers (transport text) d dir now = ground arith

report_write-numbers :
    (text : Bytes) (d : Decoder) (dir : Direction) (now : ℕ)
    → numbers (report_write text d dir now) ≡ []
unfolding report_write numbers proxy_error blank_event
report_write-numbers text d dir now = ground arith

stop-Numbered :
    (c : Connection) (dir : Direction) (reported : List Event)
    → numbers reported ≡ []
    → Numbered c
    → Numbered (stop_pump dir c reported)
unfolding stop_pump pump_of set_pump
stop-Numbered c client_to_server reported h k =
    numbers-append c.events reported ∙ rw h (append-nil (numbers c.events) ∙ k)
stop-Numbered c server_to_client reported h k =
    numbers-append c.events reported ∙ rw h (append-nil (numbers c.events) ∙ k)

decoded-numbers :
    (std : Formats) (d : Decoder) (dir : Direction) (p : Packet) (now : ℕ)
    → (numbers ((decode std d dir p now).1 ∷ []) ≡ suc d.index ∷ [])
      × ((decode std d dir p now).0.index ≡ suc d.index)
unfolding numbers blank_event
decoded-numbers std d dir p now = ground (arith, decode-stamp std d dir p now)

decoded-Numbered :
    (std : Formats) (c : Connection) (dir : Direction) (p : Packet) (now : ℕ)
    → Numbered c
    → numbers (c.events ++ ((decode std c.decoder dir p now).1 ∷ []))
      ≡ up_to (decode std c.decoder dir p now).0.index
unfolding up_to
decoded-Numbered std c dir p now k =
    let (one, next) = decoded-numbers std c.decoder dir p now in
    numbers-append c.events _ ∙ rw (one, next, k)

forward-Numbered :
    (std : Formats) (c : Connection) (dir : Direction) (now : ℕ) (w : Option Bytes) (pkt : Packet)
    (rest : Source)
    → Numbered c
    → Numbered (forward std c dir now w pkt rest)
unfolding forward pump_of set_pump
forward-Numbered std c client_to_server now (some text) pkt rest k =
    stop-Numbered _ client_to_server _ (report_write-numbers text c.decoder client_to_server now) k
forward-Numbered std c server_to_client now (some text) pkt rest k =
    stop-Numbered _ server_to_client _ (report_write-numbers text c.decoder server_to_client now) k
forward-Numbered std c client_to_server now none pkt rest k =
    decoded-Numbered std c client_to_server pkt now k
forward-Numbered std c server_to_client now none pkt rest k =
    decoded-Numbered std c server_to_client pkt now k

round-Numbered :
    (std : Formats) (c : Connection) (t : Round) → Numbered c → Numbered (pump_round std c t)
unfolding pump_round
round-Numbered std c t k = elim (Bool-cases (pump_of t.direction c).running) [
  | inl on ↦ rw on (reads (read_packet (pump_of t.direction c).source))
  | inr off ↦ rw off k
]
  where
    reads :
        (r : ReadResult)
        → Numbered (elim r [
          | bad e ↦ stop_pump t.direction c (report_read e c.decoder t.direction t.now)
          | got pkt rest ↦ forward std c t.direction t.now t.write_error pkt rest
        ])
    reads (bad e) =
        stop-Numbered c t.direction _ (report_read-numbers e c.decoder t.direction t.now) k
    reads (got pkt rest) = forward-Numbered std c t.direction t.now t.write_error pkt rest k

-- From a connection whose events are numbered so, under every schedule of the two pumps: the
-- packets of a connection are numbered 1, 2, 3, … in the order in which they are decoded, no
-- number is used twice and none is left out.
pub run_rounds-Numbered :
    (std : Formats) (c : Connection) (ts : List Round) → Numbered c → Numbered (run_rounds std c ts)
unfolding run_rounds
run_rounds-Numbered std c [] k = k
run_rounds-Numbered std c (t ∷ ts) k =
    run_rounds-Numbered std (pump_round std c t) ts (round-Numbered std c t k)
