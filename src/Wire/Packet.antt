-- ===== src/Wire/Packet.antt =====
-- One packet on the wire (wire/packet.go): a header of three length bytes and a sequence number,
-- then the payload.
pub mod Framing
use deadlocker.Base.{
  ℕ, ◌-◌, ◌==◌, Bool, [], ◌∷◌, ◌++◌, Bytes, length, take, drop, get_or, little_endian, ltb,
  if◌then◌else◌,
}

pub record Packet : Type 0 where
  pub seq : ℕ
  pub payload : Bytes
  pub raw : Bytes

abbrev pub max_payload : ℕ
max_payload = 0xffffff

unfoldable pub is_continued : Packet → Bool
is_continued p = length p.payload == max_payload

-- How a stream ends: the peer closes, or the transport reports an error with this text.
pub data Ending : Type 0 where
  eof : Ending
  fault : Bytes → Ending

-- `io.EOF`, `io.ErrUnexpectedEOF`, or another error.
pub data ReadError : Type 0 where
  at_eof unexpected_eof : ReadError
  transport : Bytes → ReadError

-- What is left of a stream.
pub record Source : Type 0 where
  pub bytes : Bytes
  pub ending : Ending

-- `io.ReadFull` of more bytes than are left, with these bytes left.
unfoldable pub short_read : Bytes → Ending → ReadError
short_read [] eof = at_eof
short_read (_ ∷ _) eof = unexpected_eof
short_read _ (fault text) = transport text

pub data ReadResult : Type 0 where
  got : Packet → Source → ReadResult
  bad : ReadError → ReadResult

unfoldable pub read_payload : Bytes → Bytes → Ending → ReadResult
read_payload header body ending =
    let n = little_endian (take 3 header) in
    if ltb (length body) n
    then bad (short_read body ending)
    else got
        (record { seq = get_or header 3 0; payload = take n body; raw = header ++ take n body })
        (record { bytes = drop n body; ending = ending })

unfoldable pub read_packet : Source → ReadResult
read_packet s =
    if ltb (length s.bytes) 4
    then bad (short_read s.bytes s.ending)
    else read_payload (take 4 s.bytes) (drop 4 s.bytes) s.ending
