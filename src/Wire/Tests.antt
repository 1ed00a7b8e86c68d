-- ===== src/Wire/Tests.antt =====
-- The wire package at concrete packets, and its theorems at inputs where their conditions hold.
use deadlocker.Base.{ℕ, ◌≡◌, refl, false, none, some, List, [], ◌∷◌, ◌++◌, Bytes, arith, str}
use deadlocker.Wire.Event.{
  Formats, client_to_server, server_to_client, Decoder, new_conn_decoder, resp_first, resp_none,
  has_flag,
}
use deadlocker.Wire.Packet.{Packet, eof, got, read_packet}
use deadlocker.Wire.Packet.Framing.{frame, read_packet-frame}
use deadlocker.Wire.Reader.{
  new_reader, fail, byte, fixed, remaining, string_of, len_enc_tail, len_enc_int, len_enc_body,
  len_enc_string,
}
use deadlocker.Wire.Reader.Bounds.{
  reads_byte, reads_int, reads_fixed, skips, performs, Advances, performs-Advances,
}
use deadlocker.Wire.Reader.RoundTrip.{at, len_enc, len_enc_int-len_enc}
use deadlocker.Base.{le_bytes}
use deadlocker.Wire.Values.{text_row, text_values, shown, failed}
use deadlocker.Wire.Values.Rows.{text_payload, text_row-text_payload}
use deadlocker.Wire.Decoder.{deprecate_eof}
use deadlocker.Wire.Decode.{decode, blank_event}
use deadlocker.Wire.Decode.Identity.{SameSession, decode-session}
use deadlocker.Wire.Response.Steps.{replies}
use deadlocker.Wire.Response.ResultSet.{after_rows, result_set_eof}
use deadlocker.Wire.Response.Prepared.{prepare_ok_payload, execute_shows_prepared}
use deadlocker.Wire.Proxy.{Connection, Round, opened_event, open_connection, run_rounds}
use deadlocker.Wire.Proxy.Transparent.{Intact, run_rounds-Intact}
use deadlocker.Wire.Proxy.Numbering.{numbers, up_to, Numbered, run_rounds-Numbered}

-- Formats that print nothing useful, to run the decoder with.
abbrev plain : Formats
plain = record { quote = λ s. s; format_float = λ bits size. [] }

-- A connection past its handshake, with and without DEPRECATE_EOF.
abbrev modern : Decoder
modern = record (new_conn_decoder [] []) {
  in_handshake = false;
  caps = 0x01000000;
  state = resp_first;
}

abbrev classic : Decoder
classic = record modern { caps = 0 }

abbrev packet : ℕ → Bytes → Packet
packet seq payload = record { seq = seq; payload = payload; raw = payload }

-- A column definition with empty strings, a row of one value, and the packets that end a block.

abbrev column : Packet × ℕ
column = (packet 2 (0 ∷ 0 ∷ 0 ∷ 0 ∷ 1 ∷ b'n' ∷ 0 ∷ []), 10)

abbrev row : Packet × ℕ
row = (packet 3 (1 ∷ b'7' ∷ []), 11)

abbrev ok_end : Packet × ℕ
ok_end = (packet 4 (0xfe ∷ 0 ∷ 0 ∷ 2 ∷ 0 ∷ 0 ∷ 0 ∷ []), 12)

abbrev eof_end : Packet × ℕ
eof_end = (packet 5 (0xfe ∷ 0 ∷ 0 ∷ 2 ∷ 0 ∷ []), 13)

-- The decoded row of the sample, and a length-encoded integer of three bytes.
sample_row : (text_row (new_reader (1 ∷ b'7' ∷ []))).1 ≡ (b'7' ∷ []) ∷ []
unfolding text_row text_values new_reader len_enc_string len_enc_int len_enc_tail len_enc_body byte
    fixed remaining failed shown string_of fail
sample_row = refl

performs-Advances_example :
    Advances
      (new_reader (1 ∷ 2 ∷ []))
      (performs (reads_byte ∷ reads_fixed 9 ∷ skips 1 ∷ reads_int ∷ []) (new_reader (1 ∷ 2 ∷ [])))
unfolding new_reader
performs-Advances_example =
    performs-Advances (reads_byte ∷ reads_fixed 9 ∷ skips 1 ∷ reads_int ∷ [])
      (new_reader (1 ∷ 2 ∷ [])) (omega arith)

len_enc_int-len_enc_example :
    len_enc_int (at (9 ∷ []) (len_enc 70000 ++ (5 ∷ [])))
    ≡ (at ((9 ∷ []) ++ len_enc 70000) (5 ∷ []), 70000, false)
len_enc_int-len_enc_example = len_enc_int-len_enc (9 ∷ []) (5 ∷ []) 70000 (omega arith)

read_packet-frame_example :
    read_packet (record { bytes = frame 3 (7 ∷ 8 ∷ []) ++ (9 ∷ []); ending = eof })
    ≡ got
        (record { seq = 3; payload = 7 ∷ 8 ∷ []; raw = frame 3 (7 ∷ 8 ∷ []) })
        (record { bytes = 9 ∷ []; ending = eof })
read_packet-frame_example = read_packet-frame 3 (7 ∷ 8 ∷ []) (9 ∷ []) eof (omega arith)

text_row-text_payload_example :
    text_row (new_reader (text_payload (some (b'7' ∷ []) ∷ none ∷ [])))
    ≡ (at (text_payload (some (b'7' ∷ []) ∷ none ∷ [])) [], (b'7' ∷ []) ∷ str "NULL" ∷ [])
text_row-text_payload_example = text_row-text_payload (some (b'7' ∷ []) ∷ none ∷ []) (omega arith)

decode-session_example :
    SameSession (record modern { index = 1 }) (decode plain modern client_to_server row.0 5).0
unfolding new_conn_decoder
decode-session_example = decode-session plain modern client_to_server row.0 5 refl

result_set_eof_example :
    replies plain classic (((packet 1 (1 ∷ [])), 9) ∷ column ∷ eof_end ∷ row ∷ eof_end ∷ [])
    ≡ record (after_rows classic 5 (column ∷ []) (row ∷ [])) { state = resp_none }
unfolding len_enc new_conn_decoder deprecate_eof has_flag
result_set_eof_example =
    result_set_eof plain classic ((packet 1 (1 ∷ [])), 9) column [] (row ∷ []) refl refl refl
      (omega arith) (record { not_empty = refl; not_error = refl; not_end = refl }, tt)
      (record { not_empty = refl; not_error = refl; not_end = refl }, tt) eof_end eof_end refl
      (record { not_empty = refl; ends = refl }) (record { not_empty = refl; ends = refl })

execute_shows_prepared_example :
    (decode plain
      (decode plain
        (decode plain modern client_to_server (packet 0 (0x16 ∷ str "SELECT 1")) 1).0
        server_to_client
        (packet 1 (prepare_ok_payload 7 1 0 0))
        2).0
      client_to_server
      (packet 0 (0x17 ∷ (le_bytes 4 7 ++ (0 ∷ []))))
      3).1.query
    ≡ str "SELECT 1"
unfolding new_conn_decoder
execute_shows_prepared_example =
    execute_shows_prepared plain modern (packet 0 (0x16 ∷ str "SELECT 1"))
      (packet 1 (prepare_ok_payload 7 1 0 0)) (packet 0 (0x17 ∷ (le_bytes 4 7 ++ (0 ∷ []))))
      (str "SELECT 1") (0 ∷ []) 7 7 1 0 0 1 2 3 refl refl refl refl refl refl (omega arith)
      (omega arith) (omega arith) (omega arith)

-- A client that sends one packet, and a server whose second packet cannot be written.
abbrev opened : Connection
opened =
    open_connection (str "a#1") (str "a") (str "mysql") 0
      (record { bytes = frame 0 (0x0e ∷ []); ending = eof })
      (record { bytes = frame 0 (10 ∷ []) ++ frame 1 (0 ∷ []); ending = eof })

abbrev schedule : List Round
schedule =
    record { direction = server_to_client; write_error = none; now = 1 }
    ∷ record { direction = client_to_server; write_error = none; now = 2 }
    ∷ record { direction = server_to_client; write_error = some (str "broken pipe"); now = 3 }
    ∷ []

run_rounds-Intact_example :
    Intact
      (frame 0 (0x0e ∷ []))
      (frame 0 (10 ∷ []) ++ frame 1 (0 ∷ []))
      (run_rounds plain opened schedule)
unfolding open_connection
run_rounds-Intact_example =
    run_rounds-Intact plain (frame 0 (0x0e ∷ [])) (frame 0 (10 ∷ []) ++ frame 1 (0 ∷ [])) opened
      schedule
      (
        record { lost = []; accounts = refl; nothing_lost = λ _. refl },
        record { lost = []; accounts = refl; nothing_lost = λ _. refl },
      )

opened-Numbered : Numbered opened
unfolding open_connection opened_event blank_event new_conn_decoder numbers up_to
opened-Numbered = refl

run_rounds-Numbered_example : Numbered (run_rounds plain opened schedule)
run_rounds-Numbered_example = run_rounds-Numbered plain opened schedule opened-Numbered
