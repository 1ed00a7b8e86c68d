-- ===== src/Wire/Response/Packets.antt =====
-- OK and ERR packets, and prepared statements, as the protocol writes them and as the decoder shows
-- them (wire/decode.go).
use deadlocker.Base.{
  ℕ, ◌≡◌, ◌<◌, ◌^◌, refl, [], ◌∷◌, ◌++◌, Bytes, length, drop, arith, length-append,
}
use deadlocker.Wire.Event.{Event, Decoder}
use deadlocker.Wire.Reader.{uint16, uint32, rest_of_packet, remaining}
use deadlocker.Wire.Reader.RoundTrip.{at, fixed_number, number-le_bytes}
use deadlocker.Base.{le_bytes}
use deadlocker.Wire.Packet.{Packet}

pub uint16-at :
    (done rest : Bytes) (v : ℕ)
    → v < 2 ^ 16
    → uint16 (at done (le_bytes 2 v ++ rest)) ≡ (at (done ++ le_bytes 2 v) rest, v)
unfolding uint16
uint16-at done rest v h = rw (fixed_number done rest 2 v h, number-le_bytes 2 v h)

pub uint32-at :
    (done rest : Bytes) (v : ℕ)
    → v < 2 ^ 32
    → uint32 (at done (le_bytes 4 v ++ rest)) ≡ (at (done ++ le_bytes 4 v) rest, v)
unfolding uint32
uint32-at done rest v h = rw (fixed_number done rest 4 v h, number-le_bytes 4 v h)

drop_all : (xs ys : Bytes) → drop (length xs) (xs ++ ys) ≡ ys
drop_all [] ys = refl
drop_all (x ∷ xs) ys = drop_all xs ys

pub rest_of_packet-at : (done rest : Bytes) → (rest_of_packet (at done rest)).1 ≡ rest
unfolding rest_of_packet remaining
rest_of_packet-at done [] = ground (arith, length-append done [])
rest_of_packet-at done (c ∷ cs) =
    ground (arith, length-append done (c ∷ cs), drop_all done (c ∷ cs))

-- An error packet of protocol 4.1.
pub err_payload : ℕ → Bytes → Bytes → Bytes
err_payload code sql_state message = 0xff ∷ (le_bytes 2 code ++ (b'#' ∷ (sql_state ++ message)))
