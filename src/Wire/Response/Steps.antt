-- ===== src/Wire/Response/Steps.antt =====
-- One server packet of each kind within a result set, as an equation on the decoder
-- (wire/decode.go).
use deadlocker.Base.{
  ℕ, ◌+◌, ◌≡◌, ◌<◌, ◌^◌, refl, ◌∙◌, Bool, true, false, not, ◌&&◌, List, [], ◌∷◌, ◌++◌, length,
  get_or, some, ltb, ◌==◌, arith, append-nil, str,
}
use deadlocker.Wire.Event.{
  server_to_client, resp_none, resp_first, resp_column_defs, resp_rows, ColumnDef, at_least_zero,
  Decoder, Formats,
}
use deadlocker.Wire.Reader.{new_reader, byte, len_enc_int, uint16}
use deadlocker.Wire.Reader.RoundTrip.{len_enc, len_enc_int-len_enc}
use deadlocker.Base.{length-le_bytes}
use deadlocker.Wire.Packet.{Packet}
use deadlocker.Wire.Values.{decode_column_def}
use deadlocker.Wire.Decoder.{after_ok, decode_ok_packet, deprecate_eof, labelled}
use deadlocker.Wire.Response.{
  to_int, result_set_header, decode_first_response, count_definition, decode_definition, rows_eof,
  end_of_rows, decode_row, by_state, decode_response, advance_in, advance_after_definition_eof,
}
use deadlocker.Wire.Decode.{blank_event, decode_by, decode}

-- The decoder after one packet of the server, and after several with their times.
abbrev pub reply : Formats → Decoder → Packet × ℕ → Decoder
reply std d (p, at) = (decode std d server_to_client p at).0

unfoldable pub replies : Formats → Decoder → List (Packet × ℕ) → Decoder
replies std d [] = d
replies std d (p ∷ ps) = replies std (reply std d p) ps

pub replies-append :
    (std : Formats) (d : Decoder) (ps qs : List (Packet × ℕ))
    → replies std d (ps ++ qs) ≡ replies std (replies std d ps) qs
unfolding replies
replies-append std d [] qs = refl
replies-append std d (p ∷ ps) qs = replies-append std (reply std d p) ps qs

abbrev first_byte : Packet → ℕ
first_byte p = get_or p.payload 0 0

-- The test for the end of a block of packets.
abbrev is_end : Packet → Bool
is_end p = first_byte p == 0xfe && ltb (length p.payload) 9

-- A column definition or a row: not empty, no error, no end of a block.
pub record IsData (p : Packet) : Type 0 where
  pub not_empty : (length p.payload == 0) ≡ false
  pub not_error : (first_byte p == 0xff) ≡ false
  pub not_end : is_end p ≡ false

pub record IsEnd (p : Packet) : Type 0 where
  pub not_empty : (length p.payload == 0) ≡ false
  pub ends : is_end p ≡ true

-- The definition that a packet holds.
abbrev pub definition_of : Packet × ℕ → ColumnDef
definition_of (p, at) = (decode_column_def (new_reader p.payload)).1

-- A server packet in the command phase that is no error goes by the response state.
reply-by_state :
    (std : Formats) (d : Decoder) (p : Packet) (at : ℕ)
    → d.in_handshake ≡ false
    → (length p.payload == 0) ≡ false
    → (first_byte p == 0xff) ≡ false
    → reply std d (p, at)
      ≡ (by_state d.state std
          (record d { index = d.index + 1 })
          p
          (first_byte p)
          (new_reader p.payload)
          (blank_event
            (record d { index = d.index + 1 })
            (some server_to_client)
            p
            at
            (str "command"))).0
unfolding decode decode_by decode_response
reply-by_state std d p at h ne nf = ground arith

-- A definition in the column block.
pub reply_definition :
    (std : Formats) (d : Decoder) (p : Packet × ℕ)
    → d.in_handshake ≡ false
    → d.state ≡ resp_column_defs
    → IsData p.0
    → reply std d p
      ≡ count_definition resp_column_defs (record d { index = d.index + 1 }) (definition_of p)
unfolding decode_definition by_state
reply_definition std d (p, at) h s k =
    reply-by_state std d p at h k.not_empty k.not_error ∙ rw (s, by_state) (rw k.not_end)

-- A row.
pub reply_row :
    (std : Formats) (d : Decoder) (p : Packet × ℕ)
    → d.in_handshake ≡ false
    → d.state ≡ resp_rows
    → IsData p.0
    → reply std d p ≡ record d { index = d.index + 1; row_count = d.row_count + 1 }
unfolding decode_row by_state
reply_row std d (p, at) h s k =
    reply-by_state std d p at h k.not_empty k.not_error ∙ rw (s, by_state) (rw k.not_end)

-- The end of the rows, without DEPRECATE_EOF and with it.
pub reply_rows_eof :
    (std : Formats) (d : Decoder) (p : Packet × ℕ)
    → d.in_handshake ≡ false
    → d.state ≡ resp_rows
    → deprecate_eof d ≡ false
    → IsEnd p.0
    → reply std d p ≡ record d { index = d.index + 1; state = resp_none }
unfolding decode_row end_of_rows rows_eof by_state deprecate_eof
reply_rows_eof std d (p, at) h s c k = ground (arith, reply-by_state std d p at)

-- The status flags of an OK packet.
unfoldable pub ok_status : Packet → ℕ
ok_status p = (uint16 (len_enc_int (len_enc_int (byte (new_reader p.payload)).0).0).0).1

pub reply_rows_ok :
    (std : Formats) (d : Decoder) (p : Packet × ℕ)
    → d.in_handshake ≡ false
    → d.state ≡ resp_rows
    → deprecate_eof d ≡ true
    → IsEnd p.0
    → reply std d p ≡ after_ok (record d { index = d.index + 1 }) (ok_status p.0)
unfolding decode_row end_of_rows decode_ok_packet by_state deprecate_eof ok_status
reply_rows_ok std d (p, at) h s c k = ground (arith, reply-by_state std d p at)

-- The end of the column block, without DEPRECATE_EOF.
pub reply_columns_eof :
    (std : Formats) (d : Decoder) (p : Packet × ℕ)
    → d.in_handshake ≡ false
    → d.state ≡ resp_column_defs
    → IsEnd p.0
    → reply std d p ≡ record d { index = d.index + 1; await_column_eof = false; state = resp_rows }
unfolding decode_definition by_state advance_after_definition_eof advance_in
reply_columns_eof std d (p, at) h s k = ground (arith, reply-by_state std d p at)

-- The header of a result set with `n` columns is none of the other answers.
header_shape :
    (n : ℕ)
    → 0 < n
    → ((length (len_enc n) == 0) ≡ false)
      × ((get_or (len_enc n) 0 0 == 0xff) ≡ false)
      × ((get_or (len_enc n) 0 0 == 0x00) ≡ false)
      × ((get_or (len_enc n) 0 0 == 0xfe && ltb (length (len_enc n)) 9) ≡ false)
      × ((get_or (len_enc n) 0 0 == 0xfb) ≡ false)
unfolding len_enc
header_shape n h = ground (arith, length-le_bytes 8 n)

header_count : (n : ℕ) → n < 2 ^ 64 → (len_enc_int (new_reader (len_enc n))).1 ≡ n
unfolding new_reader
header_count n h = ground (arith, len_enc_int-len_enc [] [] n h, append-nil (len_enc n))

-- A header opens a result set: nothing is left of the one before.
pub reply_header :
    (std : Formats) (d : Decoder) (n : ℕ) (p : Packet × ℕ)
    → d.in_handshake ≡ false
    → d.state ≡ resp_first
    → p.0.payload ≡ len_enc n
    → 0 < n
    → n < 2 ^ 63
    → reply std d p ≡ record d {
      index = d.index + 1;
      columns_wanted = at_least_zero n;
      columns_seen = 0;
      columns = [];
      row_count = 0;
      state = resp_column_defs;
      await_column_eof = not (deprecate_eof d);
    }
unfolding decode_first_response result_set_header by_state deprecate_eof to_int labelled
reply_header std d n (p, at) h s e pos small =
    ground (arith, reply-by_state std d p at, header_shape n pos, header_count n (omega arith))
