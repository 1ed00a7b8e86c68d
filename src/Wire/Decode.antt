-- ===== src/Wire/Decode.antt =====
-- A forwarded packet turned into an event (wire/decode.go, `decode`). The mutex makes each call one
-- step on the decoder.
pub mod Identity
use deadlocker.Base.{ℕ, ◌+◌, Option, some, Bool, true, false, [], Bytes, length, if◌then◌else◌, str}
use deadlocker.Wire.Event.{Direction, client_to_server, server_to_client, Event, Decoder, Formats}
use deadlocker.Wire.Packet.{Packet}
use deadlocker.Wire.Decoder.{hex_dump, decode_handshake}
use deadlocker.Wire.Command.{decode_command}
use deadlocker.Wire.Response.{decode_response}

-- The event before its kind is known. `d` has the new index.
unfoldable pub blank_event : Decoder → Option Direction → Packet → ℕ → Bytes → Event
blank_event d dir p at phase = record {
  conn_id = d.conn_id;
  actor = d.actor;
  index = d.index;
  direction = dir;
  at = at;
  seq = p.seq;
  bytes = length p.raw;
  phase = phase;
  kind = [];
  summary = [];
  query = [];
  err_code = 0;
  sql_state = [];
  err_message = [];
  affected_rows = 0;
  last_insert_id = 0;
  warnings = 0;
  status_flags = [];
  columns = [];
  values = [];
  info = [];
  protocol = [];
  hex = (hex_dump p.raw).0;
  decode_err = [];
  truncated = (hex_dump p.raw).1;
}

unfoldable pub decode_by : Bool → Formats → Decoder → Direction → Packet → ℕ → Decoder × Event
decode_by true std d dir p at =
    decode_handshake std d dir p (blank_event d (some dir) p at (str "handshake"))
decode_by false std d client_to_server p at =
    decode_command d p (blank_event d (some client_to_server) p at (str "command"))
decode_by false std d server_to_client p at =
    decode_response std d p (blank_event d (some server_to_client) p at (str "command"))

unfoldable pub decode : Formats → Decoder → Direction → Packet → ℕ → Decoder × Event
decode std d dir p at = decode_by d.in_handshake std (record d { index = d.index + 1 }) dir p at

unfoldable pub next_index : Decoder → Decoder × ℕ
next_index d = (record d { index = d.index + 1 }, d.index + 1)
