-- ===== src/Wire/Command.antt =====
-- The client's packets after the handshake (wire/decode.go, `decodeCommand`).
use deadlocker.Base.{
  ℕ, ◌==◌, not, ◌++◌, [], Bytes, length, get_or, if◌then◌else◌, str, decimal, hex_byte, map_get,
  map_delete, or_default,
}
use deadlocker.Wire.Event.{
  Event, RespState, resp_none, resp_first, Decoder, name_of, command_names, one_line,
}
use deadlocker.Wire.Reader.{Reader, new_reader, byte, uint32, rest_of_packet}
use deadlocker.Wire.Packet.{Packet}
use deadlocker.Wire.Decoder.{labelled, sized, is_empty}

unfoldable pub command_name : ℕ → Bytes
command_name cmd = name_of command_names cmd (str "COM_UNKNOWN(0x" ++ hex_byte cmd ++ str ")")

unfoldable pub com_query : Decoder → Reader → Event → Decoder × Event
com_query d r ev =
    let q = (rest_of_packet r).1 in
    (record d { last_query = q; state = resp_first }, record ev { query = q; summary = one_line q })

unfoldable pub com_stmt_prepare : Decoder → Reader → Event → Decoder × Event
com_stmt_prepare d r ev =
    let q = (rest_of_packet r).1 in
    (
      record d { pending_prep = q; state = resp_first },
      record ev { query = q; summary = str "prepare: " ++ one_line q },
    )

unfoldable pub com_stmt_execute : Decoder → Reader → Event → Decoder × Event
com_stmt_execute d r ev =
    let id = (uint32 r).1 in
    let q = or_default [] (map_get d.stmts id) in
    (
      record d { state = resp_first },
      record ev {
        query = q;
        summary =
            str "execute stmt #"
            ++ decimal id
            ++ (if is_empty q then [] else str ": " ++ one_line q);
      },
    )

unfoldable pub com_stmt_close : Decoder → Reader → Event → Decoder × Event
com_stmt_close d r ev =
    let id = (uint32 r).1 in
    (
      record d { stmts = map_delete d.stmts id; state = resp_none },
      record ev { summary = str "close stmt #" ++ decimal id },
    )

-- The commands that only set a summary and the state.
unfoldable pub simple : Decoder → RespState → Bytes → Event → Decoder × Event
simple d state summary ev = (record d { state = state }, record ev { summary = summary })

unfoldable pub dispatch : Decoder → ℕ → Reader → Event → Decoder × Event
dispatch d cmd r ev =
    if cmd == 0x03
    then com_query d r ev
    else if cmd == 0x16
    then com_stmt_prepare d r ev
    else if cmd == 0x17
    then com_stmt_execute d r ev
    else if cmd == 0x19
    then com_stmt_close d r ev
    else if cmd == 0x1a
    then simple d resp_first (str "reset stmt #" ++ decimal (uint32 r).1) ev
    else if cmd == 0x02
    then simple d resp_first (str "use database " ++ (rest_of_packet r).1) ev
    else if cmd == 0x01
    then simple d resp_none (str "client closing the connection") ev
    else if cmd == 0x0e
    then simple d resp_first (str "ping") ev
    else if cmd == 0x1f
    then simple d resp_first (str "reset session state") ev
    else simple d resp_first (command_name cmd) ev

unfoldable pub decode_command : Decoder → Packet → Event → Decoder × Event
decode_command d p ev =
    if length p.payload == 0
    then (d, labelled (str "Empty") (str "empty client packet") ev)
    else if not (p.seq == 0)
    then (
      d,
      labelled (str "Continuation")
          (sized (str "continuation of the previous request ") (length p.payload) []) ev,
    )
    else (let cmd = get_or p.payload 0 0 in
        dispatch (record d { last_command = cmd }) cmd (byte (new_reader p.payload)).0
          (record ev { kind = command_name cmd }))
