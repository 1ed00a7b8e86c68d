-- ===== src/Wire/Decoder.antt =====
-- The protocol state of one client connection (wire/decode.go, `connDecoder`). A method returns the
-- new decoder and the event with the fields that it sets.
use deadlocker.Base.{
  ℕ, ◌+◌, ◌*◌, ◌^◌, ◌==◌, Bool, true, false, not, ◌&&◌, none, some, List, [], ◌∷◌, ◌++◌, map, Bytes,
  length, take, get_or, ltb, leb, if◌then◌else◌, str, decimal, hex_string, trim_space, join,
}
use deadlocker.Wire.Event.{
  Direction, client_to_server, server_to_client, Formats, Event, resp_none, resp_first,
  at_least_zero, Decoder, has_flag, cap_deprecate_eof, cap_ssl, status_in_trans,
  status_more_results, flag_names, status_flag_names, notable_caps, hex_dump_limit, one_line,
}
use deadlocker.Wire.Reader.{
  Reader, new_reader, error_text, byte, fixed, uint16, uint32, len_enc_int, nul_string,
  rest_of_packet, remaining, skip, string_of,
}
use deadlocker.Wire.Packet.{Packet}

unfoldable pub hex_dump : Bytes → Bytes × Bool
hex_dump b =
    if ltb hex_dump_limit (length b)
    then (hex_string (take hex_dump_limit b), true)
    else (hex_string b, false)

-- `if r.err != nil { ev.DecodeErr = r.err.Error() }`.
unfoldable pub note_error : Reader → Event → Event
note_error r ev = elim r.err [ none ↦ ev | some f ↦ record ev { decode_err = error_text f } ]

unfoldable pub reset_result : Decoder → Decoder
reset_result d = record d {
  state = resp_none;
  columns_wanted = at_least_zero 0;
  columns_seen = 0;
  params_wanted = 0;
  params_seen = 0;
  await_column_eof = false;
}

unfoldable pub deprecate_eof : Decoder → Bool
deprecate_eof d = has_flag d.caps cap_deprecate_eof

unfoldable pub column_names : Decoder → List Bytes
column_names d = map (λ c. c.name) d.columns

-- One part of the summary of an OK packet, if the packet has it.
unfoldable pub part_if : Bool → Bytes → List Bytes → List Bytes
part_if b part parts = if b then part ∷ parts else parts

unfoldable pub ok_summary : ℕ → ℕ → ℕ → ℕ → Bytes
ok_summary affected last_insert status warnings =
    join
      ((decimal affected ++ str " row(s) affected")
        ∷ part_if (not (last_insert == 0)) (str "last insert id " ++ decimal last_insert) (
            part_if (not (warnings == 0)) (decimal warnings ++ str " warning(s)")
              (part_if (has_flag status status_in_trans) (str "in transaction") [])))
      (str ", ")

unfoldable pub is_empty : Bytes → Bool
is_empty [] = true
is_empty (_ ∷ _) = false

-- The state after an OK packet with these status flags.
unfoldable pub after_ok : Decoder → ℕ → Decoder
after_ok d status =
    if has_flag status status_more_results then record d { state = resp_first } else reset_result d

unfoldable pub decode_ok_packet : Decoder → Reader → Event → Decoder × Event
decode_ok_packet d r0 ev =
    let r1 = (byte r0).0 in
    let (r2, affected, _) = len_enc_int r1 in
    let (r3, last_insert, _) = len_enc_int r2 in
    let (r4, status) = uint16 r3 in
    let (r5, warnings) = uint16 r4 in
    let info = trim_space (rest_of_packet r5).1 in
    (
      after_ok d status,
      record ev {
        kind = str "OK";
        affected_rows = affected;
        last_insert_id = last_insert;
        warnings = warnings;
        status_flags = status_flag_names status;
        info = if is_empty info then ev.info else info;
        summary = ok_summary affected last_insert status warnings;
      },
    )

-- The SQL state behind a `#`, if there is one.
unfoldable pub sql_state_of : Reader → Reader × Bytes
sql_state_of r =
    if leb 6 (remaining r) && get_or r.b r.pos 0 == b'#'
    then (let (r', s) = fixed (byte r).0 5 in (r', string_of s))
    else (r, [])

unfoldable pub decode_err_packet : Reader → Event → Event
decode_err_packet r0 ev =
    let (r1, code) = uint16 (byte r0).0 in
    let (r2, sql_state) = sql_state_of r1 in
    let message = (rest_of_packet r2).1 in
    record ev {
      kind = str "ERR";
      err_code = code;
      sql_state = sql_state;
      err_message = message;
      summary =
          str "error " ++ decimal code ++ str " (" ++ sql_state ++ str "): " ++ one_line message;
    }

unfoldable pub decode_server_greeting : Reader → Event → Event
decode_server_greeting r0 ev =
    let (r1, version) = nul_string (byte r0).0 in
    let (r2, thread_id) = uint32 r1 in
    let (r3, cap_lower) = uint16 (skip (skip r2 8) 1) in
    let (r4, status) = uint16 (skip r3 1) in
    let (r5, cap_upper) = uint16 r4 in
    let caps = cap_lower + cap_upper * 2 ^ 16 in
    note_error r5 (record ev {
      kind = str "ServerGreeting";
      status_flags = status_flag_names status;
      summary = str "MySQL " ++ version ++ str ", connection id " ++ decimal thread_id;
      info =
          if has_flag caps cap_ssl
          then str "server offers TLS (client declines: the proxy needs plaintext to decode)"
          else ev.info;
    })

unfoldable pub decode_handshake_response : Formats → Decoder → Reader → Event → Decoder × Event
decode_handshake_response std d r0 ev =
    let (r1, caps) = uint32 r0 in
    let (r2, max_packet) = uint32 r1 in
    let (r3, charset) = byte r2 in
    let (r4, user) = nul_string (skip r3 23) in
    (
      record d { caps = caps },
      note_error r4 (record ev {
        kind = str "HandshakeResponse";
        summary =
            str "client login as "
            ++ std.quote user
            ++ str " (max packet "
            ++ decimal max_packet
            ++ str ", charset "
            ++ decimal charset
            ++ str ")";
        info = join (flag_names notable_caps caps) (str " | ");
      }),
    )

unfoldable pub labelled : Bytes → Bytes → Event → Event
labelled kind summary ev = record ev { kind = kind; summary = summary }

-- `(n bytes)` between two texts.
unfoldable pub sized : Bytes → ℕ → Bytes → Bytes
sized before n after = before ++ str "(" ++ decimal n ++ str " bytes)" ++ after

unfoldable pub auth_more_summary : Packet → Bytes
auth_more_summary p =
    let left = remaining (byte (new_reader p.payload)).0 in
    if left == 1 && get_or p.payload 1 0 == 3
    then str "caching_sha2_password: fast auth succeeded"
    else if left == 1 && get_or p.payload 1 0 == 4
    then str "caching_sha2_password: full authentication required"
    else sized (str "server auth data ") left
        (str " " ++ 0xe2 ∷ 0x80 ∷ 0x94 ∷ str " RSA public key or scramble")

-- The server's packets during the handshake, by their first byte.
unfoldable pub server_handshake : Decoder → Packet → ℕ → Event → Decoder × Event
server_handshake d p first ev =
    let r = new_reader p.payload in
    if first == 0xff
    then (record d { in_handshake = false }, decode_err_packet r ev)
    else if first == 0x00
    then (let (d', ev') = decode_ok_packet d r ev in
        (
          record d' { in_handshake = false; state = resp_none },
          labelled (str "OK")
              (str "authentication succeeded "
                ++ 0xe2 ∷ 0x80 ∷ 0x94 ∷ str " entering command phase")
              ev',
        ))
    else if first == 0x01
    then (d, labelled (str "AuthMoreData") (auth_more_summary p) ev)
    else if first == 0xfe
    then (
      d,
      labelled (str "AuthSwitchRequest")
          (str "server requests auth plugin " ++ (nul_string (byte r).0).1) ev,
    )
    else if first == 0x0a
    then (d, decode_server_greeting r ev)
    else (
      d,
      labelled (str "HandshakeData") (sized (str "server handshake payload ") (length p.payload) [])
          ev,
    )

unfoldable pub auth_data_summary : Bytes → Bytes
auth_data_summary payload =
    if length payload == 1 && get_or payload 0 0 == 2
    then str "client requests the server's RSA public key"
    else if length payload == 0
    then str "empty auth response (no password)"
    else sized (str "client auth data ") (length payload)
        (str " " ++ 0xe2 ∷ 0x80 ∷ 0x94 ∷ str " scrambled or RSA-encrypted password")

unfoldable pub decode_handshake : Formats → Decoder → Direction → Packet → Event → Decoder × Event
decode_handshake std d server_to_client p ev =
    if length p.payload == 0
    then (d, labelled (str "Unknown") (str "empty packet") ev)
    else server_handshake d p (get_or p.payload 0 0) ev
decode_handshake std d client_to_server p ev =
    if p.seq == 1 && leb 32 (length p.payload)
    then decode_handshake_response std d (new_reader p.payload) ev
    else (d, labelled (str "AuthData") (auth_data_summary p.payload) ev)
