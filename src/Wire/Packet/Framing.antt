-- ===== src/Wire/Packet/Framing.antt =====
-- Packets on a stream, written and read (wire/packet.go, `readPacket`).
use deadlocker.Base.{
  ℕ, ◌+◌, ◌^◌, ◌≡◌, ◌≤◌, ◌<◌, refl, sym, inl, inr, [], ◌∷◌, ◌++◌, Bytes, length, take, drop, get_or,
  little_endian, ltb, Bool-cases, arith, length-append, length-take, take-append-drop, take-append,
  drop-append, append_assoc, append-nil,
}
use deadlocker.Base.{le_bytes, length-le_bytes, little_endian-le_bytes}
use deadlocker.Wire.Packet.{Ending, Source, ReadResult, got, bad, read_payload, read_packet}

-- The bytes of a packet with this sequence number and payload.
pub frame : ℕ → Bytes → Bytes
frame seq payload = le_bytes 3 (length payload) ++ (seq ∷ payload)

-- What holds of a packet that was read off a source.
abbrev pub Splits : Source → ReadResult → Type 0
Splits s (got p rest) =
    (p.raw ++ rest.bytes ≡ s.bytes)
    × (rest.ending ≡ s.ending)
    × (length p.raw ≡ 4 + length p.payload)
    × (p.payload ≡ drop 4 p.raw)
Splits s (bad e) = Unit

header_length : (b : Bytes) → 4 ≤ length b → length (take 4 b) ≡ 4
header_length b h = omega (arith, length-take 4 b)

payload_length : (b : Bytes) (n : ℕ) → n ≤ length b → length (take n b) ≡ n
payload_length b n h = omega (arith, length-take n b)

read_payload-Splits :
    (header body : Bytes) (ending : Ending)
    → length header ≡ 4
    → Splits (record { bytes = header ++ body; ending = ending }) (read_payload header body ending)
unfolding read_payload
read_payload-Splits header body ending h = ground (
  arith,
  payload_length body (little_endian (take 3 header)),
  append_assoc header (take (little_endian (take 3 header)) body)
      (drop (little_endian (take 3 header)) body),
  take-append-drop (little_endian (take 3 header)) body,
  length-append header (take (little_endian (take 3 header)) body),
  drop-append header (take (little_endian (take 3 header)) body) 4,
)

-- `readPacket` takes a packet's bytes off the front of the stream: what it forwards and what is left
-- make up what was there, and the payload is all but the header.
pub read_packet-Splits : (s : Source) → Splits s (read_packet s)
unfolding read_packet
read_packet-Splits s = elim (Bool-cases (ltb (length s.bytes) 4)) [
  | inl short ↦ rw short tt
  | inr enough ↦ rw enough (
      rw (take-append-drop 4 s.bytes) at (
        read_payload-Splits (take 4 s.bytes) (drop 4 s.bytes) s.ending
          (header_length s.bytes (ground arith))))
]

-- The four header bytes of a frame.
header : ℕ → Bytes → Bytes
header seq payload = le_bytes 3 (length payload) ++ (seq ∷ [])

header-length : (seq : ℕ) (payload : Bytes) → length (header seq payload) ≡ 4
unfolding header
header-length seq payload = omega (
  arith,
  length-append (le_bytes 3 (length payload)) (seq ∷ []),
  length-le_bytes 3 (length payload),
)

header-count :
    (seq : ℕ) (payload : Bytes)
    → length payload < 2 ^ 24
    → little_endian (take 3 (header seq payload)) ≡ length payload
unfolding header
header-count seq payload h =
    rw (take-append (le_bytes 3 (length payload)) (seq ∷ []) 3 (sym (length-le_bytes 3 _)))
      (little_endian-le_bytes 3 (length payload) h)

header-seq : (seq : ℕ) (payload : Bytes) → get_or (header seq payload) 3 0 ≡ seq
unfolding header le_bytes
header-seq seq payload = refl

frame-header :
    (seq : ℕ) (payload rest : Bytes)
    → frame seq payload ++ rest ≡ header seq payload ++ (payload ++ rest)
unfolding frame header
frame-header seq payload rest = simp append_assoc

read_payload-header :
    (seq : ℕ) (payload rest : Bytes) (ending : Ending)
    → length payload < 2 ^ 24
    → read_payload (header seq payload) (payload ++ rest) ending
      ≡ got
          (record { seq = seq; payload = payload; raw = header seq payload ++ payload })
          (record { bytes = rest; ending = ending })
unfolding read_payload
read_payload-header seq payload rest ending h = ground (
  arith,
  header-count seq payload h,
  header-seq seq payload,
  length-append payload rest,
  take-append payload rest (length payload) refl,
  drop-append payload rest (length payload) refl,
)

-- A packet of fewer than 2^24 bytes that is written whole is read back whole, whatever follows it
-- on the stream.
pub read_packet-frame :
    (seq : ℕ) (payload rest : Bytes) (ending : Ending)
    → length payload < 2 ^ 24
    → read_packet (record { bytes = frame seq payload ++ rest; ending = ending })
      ≡ got
          (record { seq = seq; payload = payload; raw = frame seq payload })
          (record { bytes = rest; ending = ending })
unfolding read_packet
read_packet-frame seq payload rest ending h =
    let whole = frame-header seq payload rest in
    let bare = frame-header seq payload [] in
    ground (
      arith,
      whole,
      bare,
      append-nil (frame seq payload),
      append-nil payload,
      header-length seq payload,
      length-append (header seq payload) (payload ++ rest),
      take-append (header seq payload) (payload ++ rest) 4,
      drop-append (header seq payload) (payload ++ rest) 4,
      read_payload-header seq payload rest ending h,
    )
