-- ===== src/Wire/Decode/Identity.antt =====
-- A packet and the identity of its connection, and the fields that `decode` stamps on an event
-- (wire/decode.go).
use deadlocker.Base.{
  ℕ, ◌+◌, ◌≡◌, Bool, true, false, some, Option-cases, inl, inr, Bytes, arith, ◌==◌, get_or, length,
  ltb, ◌&&◌, Bool-cases, str, if◌then◌else◌,
}
use deadlocker.Wire.Event.{
  Direction, client_to_server, server_to_client, Event, RespState, resp_none, resp_first,
  resp_prepare_params, resp_prepare_columns, resp_column_defs, resp_rows, ColumnDef, Decoder,
  Formats,
}
use deadlocker.Wire.Decode.{blank_event, decode_by, decode}
use deadlocker.Wire.Packet.{Packet}
use deadlocker.Wire.Reader.{Reader, new_reader, byte}
use deadlocker.Wire.Decoder.{
  labelled, note_error, reset_result, after_ok, decode_ok_packet, decode_err_packet,
  decode_server_greeting, decode_handshake_response, server_handshake, decode_handshake,
}
use deadlocker.Wire.Command.{
  command_name, com_query, com_stmt_prepare, com_stmt_execute, com_stmt_close, simple, dispatch,
  decode_command,
}
use deadlocker.Wire.Response.{
  prepare_ok, result_set_header, decode_first_response, advance_in, advance_after_definition_eof,
  count_definition, decode_definition, rows_eof, end_of_rows, decode_row, by_state, decode_response,
}

-- The stamp of an event.
pub record SameStamp (ev ev' : Event) : Type 0 where
  pub conn_id : ev'.conn_id ≡ ev.conn_id
  pub actor : ev'.actor ≡ ev.actor
  pub index : ev'.index ≡ ev.index
  pub direction : ev'.direction ≡ ev.direction
  pub seq : ev'.seq ≡ ev.seq
  pub bytes : ev'.bytes ≡ ev.bytes
  pub phase : ev'.phase ≡ ev.phase
  pub hex : ev'.hex ≡ ev.hex
  pub truncated : ev'.truncated ≡ ev.truncated

-- The connection behind a decoder.
pub record SameConnection (d d' : Decoder) : Type 0 where
  pub conn_id : d'.conn_id ≡ d.conn_id
  pub actor : d'.actor ≡ d.actor
  pub index : d'.index ≡ d.index

-- In the command phase the negotiated capabilities stay too, and the phase does.
pub record SameSession (d d' : Decoder) : Type 0 where
  pub conn_id : d'.conn_id ≡ d.conn_id
  pub actor : d'.actor ≡ d.actor
  pub index : d'.index ≡ d.index
  pub caps : d'.caps ≡ d.caps
  pub in_handshake : d'.in_handshake ≡ d.in_handshake

note_error-stamp :
    (r : Reader) (ev ev' : Event) → SameStamp ev ev' → SameStamp ev (note_error r ev')
unfolding note_error
note_error-stamp r ev ev' h = elim (Option-cases r.err) [
  | inl e ↦ rw (e, note_error) h
  | inr (f, e) ↦ rw (e, note_error) (ground arith)
]

err_packet-stamp : (r : Reader) (ev : Event) → SameStamp ev (decode_err_packet r ev)
unfolding decode_err_packet
err_packet-stamp r ev = ground arith

ok_packet-stamp :
    (d : Decoder) (r : Reader) (ev : Event)
    → SameStamp ev (decode_ok_packet d r ev).1 × SameSession d (decode_ok_packet d r ev).0
unfolding decode_ok_packet after_ok reset_result
ok_packet-stamp d r ev = (ground arith, ground arith)

greeting-stamp : (r : Reader) (ev : Event) → SameStamp ev (decode_server_greeting r ev)
unfolding decode_server_greeting
greeting-stamp r ev = note_error-stamp _ ev _ (ground arith)

-- What a decoding in the handshake keeps, and one in the command phase.
abbrev KeepsConnection : Decoder → Event → Decoder × Event → Type 0
KeepsConnection d ev out = SameStamp ev out.1 × SameConnection d out.0

abbrev pub KeepsSession : Decoder → Event → Decoder × Event → Type 0
KeepsSession d ev out = SameStamp ev out.1 × SameSession d out.0

handshake_response-keeps :
    (std : Formats) (d : Decoder) (r : Reader) (ev : Event)
    → KeepsConnection d ev (decode_handshake_response std d r ev)
unfolding decode_handshake_response
handshake_response-keeps std d r ev = (note_error-stamp _ ev _ (ground arith), ground arith)

server_handshake-keeps :
    (d : Decoder) (p : Packet) (first : ℕ) (ev : Event)
    → KeepsConnection d ev (server_handshake d p first ev)
unfolding server_handshake labelled
server_handshake-keeps d p first ev = ground (
  arith,
  err_packet-stamp (new_reader p.payload) ev,
  ok_packet-stamp d (new_reader p.payload) ev,
  greeting-stamp (new_reader p.payload) ev,
)

handshake-keeps :
    (std : Formats) (d : Decoder) (dir : Direction) (p : Packet) (ev : Event)
    → KeepsConnection d ev (decode_handshake std d dir p ev)
unfolding decode_handshake labelled
handshake-keeps std d server_to_client p ev =
    ground (arith, server_handshake-keeps d p (get_or p.payload 0 0) ev)
handshake-keeps std d client_to_server p ev =
    ground (arith, handshake_response-keeps std d (new_reader p.payload) ev)

dispatch-keeps :
    (d : Decoder) (cmd : ℕ) (r : Reader) (ev : Event) → KeepsSession d ev (dispatch d cmd r ev)
unfolding dispatch com_query com_stmt_prepare com_stmt_execute com_stmt_close simple
dispatch-keeps d cmd r ev = ground arith

command-keeps : (d : Decoder) (p : Packet) (ev : Event) → KeepsSession d ev (decode_command d p ev)
unfolding decode_command labelled
command-keeps d p ev =
    let cmd = get_or p.payload 0 0 in
    ground (
      arith,
      dispatch-keeps (record d { last_command = cmd }) cmd (byte (new_reader p.payload)).0
          (record ev { kind = command_name cmd }),
    )

first_response-keeps :
    (d : Decoder) (p : Packet) (first : ℕ) (r : Reader) (ev : Event)
    → KeepsSession d ev (decode_first_response d p first r ev)
unfolding decode_first_response prepare_ok result_set_header labelled
first_response-keeps d p first r ev = ground (arith, ok_packet-stamp d r ev)

advance-session : (s : RespState) (d : Decoder) → SameSession d (advance_in s d)
unfolding advance_in
advance-session resp_none d = ground arith
advance-session _ d = ground arith

count-session :
    (s : RespState) (d : Decoder) (def : ColumnDef) → SameSession d (count_definition s d def)
unfolding count_definition advance_after_definition_eof
count-session resp_prepare_params d def =
    ground (arith, advance-session d.state (record d { params_seen = d.params_seen + 1 }))
count-session _ d def = ground arith

definition-keeps :
    (d : Decoder) (p : Packet) (first : ℕ) (r : Reader) (ev : Event)
    → KeepsSession d ev (decode_definition d p first r ev)
unfolding decode_definition labelled advance_after_definition_eof
definition-keeps d p first r ev = elim (Bool-cases (first == 0xfe && ltb (length p.payload) 9)) [
  | inl e ↦ rw e (ground arith, advance-session d.state d)
  | inr e ↦ rw e (note_error-stamp _ ev _ (ground arith), count-session d.state d _)
]

row-keeps :
    (std : Formats) (d : Decoder) (p : Packet) (first : ℕ) (r : Reader) (ev : Event)
    → KeepsSession d ev (decode_row std d p first r ev)
unfolding decode_row end_of_rows rows_eof
row-keeps std d p first r ev = elim (Bool-cases (first == 0xfe && ltb (length p.payload) 9)) [
  | inl e ↦ rw e (ground (arith, ok_packet-stamp d r ev))
  | inr e ↦ rw e (note_error-stamp _ ev _ (ground arith), ground arith)
]

by_state-keeps :
    (s : RespState) (std : Formats) (d : Decoder) (p : Packet) (first : ℕ) (r : Reader) (ev : Event)
    → KeepsSession d ev (by_state s std d p first r ev)
unfolding by_state labelled
by_state-keeps resp_first std d p first r ev = first_response-keeps d p first r ev
by_state-keeps resp_prepare_params std d p first r ev = definition-keeps d p first r ev
by_state-keeps resp_prepare_columns std d p first r ev = definition-keeps d p first r ev
by_state-keeps resp_column_defs std d p first r ev = definition-keeps d p first r ev
by_state-keeps resp_rows std d p first r ev = row-keeps std d p first r ev
by_state-keeps resp_none std d p first r ev = (ground arith, ground arith)

response-keeps :
    (std : Formats) (d : Decoder) (p : Packet) (ev : Event)
    → KeepsSession d ev (decode_response std d p ev)
unfolding decode_response labelled reset_result
response-keeps std d p ev =
    let first = get_or p.payload 0 0 in
    let r = new_reader p.payload in
    ground (arith, err_packet-stamp r ev, by_state-keeps d.state std d p first r ev)

phase_name : Bool → Bytes
phase_name b = str (if b then "handshake" else "command")

decode_by-stamp :
    (b : Bool) (std : Formats) (d : Decoder) (dir : Direction) (p : Packet) (at : ℕ)
    → SameConnection d (decode_by b std d dir p at).0
      × SameStamp (blank_event d (some dir) p at (phase_name b)) (decode_by b std d dir p at).1
unfolding decode_by phase_name
decode_by-stamp true std d dir p at =
    let (e, c) = handshake-keeps std d dir p (blank_event d (some dir) p at (str "handshake")) in
    (c, e)
decode_by-stamp false std d client_to_server p at =
    let (e, c) = command-keeps d p (blank_event d (some client_to_server) p at (str "command")) in
    (ground arith, e)
decode_by-stamp false std d server_to_client p at =
    let (e, c) =
      response-keeps std d p (blank_event d (some server_to_client) p at (str "command")) in
    (ground arith, e)

-- Every packet, in either phase and direction, gets the next index of its connection, and its event
-- carries that index, the connection, the direction, the sequence number, the size and the phase.
pub decode-stamp :
    (std : Formats) (d : Decoder) (dir : Direction) (p : Packet) (at : ℕ)
    → SameConnection (record d { index = d.index + 1 }) (decode std d dir p at).0
      × SameStamp
          (blank_event
            (record d { index = d.index + 1 })
            (some dir)
            p
            at
            (str (if d.in_handshake then "handshake" else "command")))
          (decode std d dir p at).1
unfolding decode phase_name
decode-stamp std d dir p at =
    decode_by-stamp d.in_handshake std (record d { index = d.index + 1 }) dir p at

-- Once the handshake is over, no packet starts it again, and the capabilities that the client
-- announced do not change.
pub decode-session :
    (std : Formats) (d : Decoder) (dir : Direction) (p : Packet) (at : ℕ)
    → d.in_handshake ≡ false
    → SameSession (record d { index = d.index + 1 }) (decode std d dir p at).0
unfolding decode decode_by
decode-session std d client_to_server p at h = rw h (command-keeps _ p _).1
decode-session std d server_to_client p at h = rw h (response-keeps std _ p _).1
