-- ===== src/Wire/Response.antt =====
-- The server's packets after the handshake (wire/decode.go, `decodeResponse`).
pub mod Steps
pub mod ResultSet
pub mod Packets
pub mod Prepared
use deadlocker.Base.{
  ℕ, ◌+◌, ◌-◌, ◌^◌, ◌==◌, Bool, true, false, not, ◌&&◌, ◌∷◌, ◌++◌, [], List, Bytes, length, get_or,
  ltb, leb, if◌then◌else◌, str, decimal, map_set, join,
}
use deadlocker.Wire.Event.{
  Event, RespState, resp_none, resp_first, resp_prepare_params, resp_prepare_columns,
  resp_column_defs, resp_rows, ColumnDef, GoInt, at_least_zero, below_zero, Decoder, Formats,
  status_flag_names, one_line,
}
use deadlocker.Wire.Reader.{Reader, new_reader, byte, uint16, uint32, len_enc_int, skip}
use deadlocker.Wire.Values.{type_name, is_unsigned, decode_column_def, decode_binary_row, text_row}
use deadlocker.Wire.Packet.{Packet}
use deadlocker.Wire.Decoder.{
  labelled, sized, is_empty, note_error, reset_result, deprecate_eof, column_names,
  decode_ok_packet, decode_err_packet,
}

-- `int(n)` of an unsigned 64-bit number.
unfoldable pub to_int : ℕ → GoInt
to_int n = if ltb n (2 ^ 63) then at_least_zero n else below_zero (2 ^ 64 - 1 - n)

-- `seen >= wanted`.
unfoldable pub reached : ℕ → GoInt → Bool
reached seen (at_least_zero wanted) = leb wanted seen
reached seen (below_zero _) = true

unfoldable pub is_positive : GoInt → Bool
is_positive (at_least_zero n) = ltb 0 n
is_positive (below_zero _) = false

-- The state after the answer to a prepare, by the numbers of parameters and columns.
unfoldable pub prepare_state : ℕ → ℕ → RespState
prepare_state num_params num_cols =
    if ltb 0 num_params
    then resp_prepare_params
    else if ltb 0 num_cols
    then resp_prepare_columns
    else resp_none

unfoldable pub prepare_ok : Decoder → Reader → Event → Decoder × Event
prepare_ok d r0 ev =
    let (r1, id) = uint32 (byte r0).0 in
    let (r2, num_cols) = uint16 r1 in
    let (r3, num_params) = uint16 r2 in
    let (r4, warnings) = uint16 (skip r3 1) in
    (
      record d {
        stmts = map_set d.stmts id d.pending_prep;
        pending_prep = [];
        params_wanted = num_params;
        params_seen = 0;
        columns_wanted = at_least_zero num_cols;
        columns_seen = 0;
        columns = [];
        state = prepare_state num_params num_cols;
      },
      record ev {
        kind = str "PrepareOK";
        warnings = warnings;
        query = d.pending_prep;
        summary =
            str "prepared as stmt #"
            ++ decimal id
            ++ str " ("
            ++ decimal num_params
            ++ str " params, "
            ++ decimal num_cols
            ++ str " columns)";
      },
    )

unfoldable pub result_set_header : Decoder → Reader → Event → Decoder × Event
result_set_header d r ev =
    let n = (len_enc_int r).1 in
    (
      record d {
        columns_wanted = to_int n;
        columns_seen = 0;
        columns = [];
        row_count = 0;
        state = if n == 0 then resp_none else resp_column_defs;
        await_column_eof = if n == 0 then d.await_column_eof else not (deprecate_eof d);
      },
      labelled (str "ResultSetHeader")
          (str "result set with " ++ decimal n ++ str " column(s) follows") ev,
    )

unfoldable pub decode_first_response : Decoder → Packet → ℕ → Reader → Event → Decoder × Event
decode_first_response d p first r ev =
    if first == 0x00 && d.last_command == 0x16
    then prepare_ok d r ev
    else if first == 0x00
    then decode_ok_packet d r ev
    else if first == 0xfe && ltb (length p.payload) 9
    then decode_ok_packet d r ev
    else if first == 0xfb
    then (
      record d { state = resp_none },
      labelled (str "LocalInfileRequest")
          (str "server requests a local file (LOAD DATA LOCAL INFILE)") ev,
    )
    else result_set_header d r ev

unfoldable pub advance_in : RespState → Decoder → Decoder
advance_in resp_prepare_params d = record d {
  state = if is_positive d.columns_wanted then resp_prepare_columns else resp_none;
}
advance_in resp_column_defs d = record d { await_column_eof = false; state = resp_rows }
advance_in _ d = record d { state = resp_none }

unfoldable pub advance_after_definition_eof : Decoder → Decoder
advance_after_definition_eof d = advance_in d.state d

-- What a column definition does to the decoder, by its state.
unfoldable pub count_definition : RespState → Decoder → ColumnDef → Decoder
count_definition resp_prepare_params d def =
    let d' = record d { params_seen = d.params_seen + 1 } in
    if leb d'.params_wanted d'.params_seen && deprecate_eof d'
    then advance_after_definition_eof d'
    else d'
count_definition resp_prepare_columns d def =
    let d' = record d { columns_seen = d.columns_seen + 1 } in
    if reached d'.columns_seen d'.columns_wanted && deprecate_eof d'
    then record d' { state = resp_none }
    else d'
count_definition resp_column_defs d def =
    let d' = record d { columns_seen = d.columns_seen + 1; columns = d.columns ++ (def ∷ []) } in
    if reached d'.columns_seen d'.columns_wanted && not d'.await_column_eof
    then record d' { state = resp_rows }
    else d'
count_definition _ d def = d

unfoldable pub definition_summary : ColumnDef → Bytes
definition_summary def =
    (if is_empty def.table
      then str "column " ++ def.name ++ str " (" ++ type_name def.type ++ str ")"
      else str "column "
        ++ def.table
        ++ str "."
        ++ def.name
        ++ str " ("
        ++ type_name def.type
        ++ str ")")
    ++ (if is_unsigned def then str " unsigned" else [])

unfoldable pub decode_definition : Decoder → Packet → ℕ → Reader → Event → Decoder × Event
decode_definition d p first r0 ev =
    if first == 0xfe && ltb (length p.payload) 9
    then (advance_after_definition_eof d, labelled (str "EOF") (str "end of metadata block") ev)
    else (let (r, def) = decode_column_def r0 in
        (
          count_definition d.state d def,
          note_error r (labelled (str "ColumnDefinition") (definition_summary def) ev),
        ))

-- The end of a result set without the OK packet of DEPRECATE_EOF.
unfoldable pub rows_eof : Decoder → Reader → Event → Decoder × Event
rows_eof d r0 ev =
    let (r1, warnings) = uint16 (byte r0).0 in
    let status = (uint16 r1).1 in
    (
      record d { state = resp_none },
      record ev { kind = str "EOF"; warnings = warnings; status_flags = status_flag_names status },
    )

unfoldable pub end_of_rows : Decoder → Reader → Event → Decoder × Event
end_of_rows d r ev =
    let (d', ev') = if deprecate_eof d then decode_ok_packet d r ev else rows_eof d r ev in
    (
      d',
      record ev' {
        summary = str "end of result set (" ++ decimal d.row_count ++ str " row(s))";
        columns = column_names d';
      },
    )

-- The values of a row, by the command that it answers, with the cursor that reports the error.
unfoldable pub row_values : Formats → Decoder → Reader → Reader × List Bytes
row_values std d r =
    if d.last_command == 0x17 then decode_binary_row std r d.columns else text_row r

unfoldable pub decode_row : Formats → Decoder → Packet → ℕ → Reader → Event → Decoder × Event
decode_row std d p first r0 ev =
    if first == 0xfe && ltb (length p.payload) 9
    then end_of_rows d r0 ev
    else (let d' = record d { row_count = d.row_count + 1 } in
        let (r, vals) = row_values std d' r0 in
        (
          d',
          note_error r (record ev {
            kind = str "Row";
            protocol = if d.last_command == 0x17 then str "binary" else str "text";
            values = vals;
            columns = column_names d';
            summary =
                str "row " ++ decimal d'.row_count ++ str ": " ++ one_line (join vals (str " | "));
          }),
        ))

unfoldable pub by_state :
    RespState → Formats → Decoder → Packet → ℕ → Reader → Event → Decoder × Event
by_state resp_first std d p first r ev = decode_first_response d p first r ev
by_state resp_prepare_params std d p first r ev = decode_definition d p first r ev
by_state resp_prepare_columns std d p first r ev = decode_definition d p first r ev
by_state resp_column_defs std d p first r ev = decode_definition d p first r ev
by_state resp_rows std d p first r ev = decode_row std d p first r ev
by_state resp_none std d p first r ev = (
  d,
  labelled (str "Unsolicited")
      (sized (str "server packet outside a known response ") (length p.payload) []) ev,
)

unfoldable pub decode_response : Formats → Decoder → Packet → Event → Decoder × Event
decode_response std d p ev =
    if length p.payload == 0
    then (d, labelled (str "Empty") (str "empty server packet") ev)
    else (let first = get_or p.payload 0 0 in
        let r = new_reader p.payload in
        if first == 0xff
        then (reset_result d, decode_err_packet r ev)
        else by_state d.state std d p first r ev)
