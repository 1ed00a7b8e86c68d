-- ===== src/Wire/Event.antt =====
-- The decoded packet, the protocol's constants and the decoder's state (wire/decode.go).
use deadlocker.Base.{
  ℕ, ◌==◌, Option, Bool, true, false, not, List, [], ◌∷◌, Bytes, String, bit_and, if◌then◌else◌,
  str, length, ltb, take, fields, join, ◌++◌,
}

-- A direction that is not set is `none`.
pub data Direction : Type 0 where
  client_to_server server_to_client : Direction

-- What the program takes from `strconv`: `%q`, and the shortest decimal form of the float that
-- some bits stand for (the bits, and their number).
pub record Formats : Type 0 where
  pub quote : Bytes → Bytes
  pub format_float : ℕ → ℕ → Bytes

pub record Event : Type 0 where
  pub conn_id : Bytes
  pub actor : Bytes
  pub index : ℕ
  pub direction : Option Direction
  pub at : ℕ
  pub seq : ℕ
  pub bytes : ℕ
  pub phase : Bytes
  pub kind : Bytes
  pub summary : Bytes
  pub query : Bytes
  pub err_code : ℕ
  pub sql_state : Bytes
  pub err_message : Bytes
  pub affected_rows : ℕ
  pub last_insert_id : ℕ
  pub warnings : ℕ
  pub status_flags : List Bytes
  pub columns : List Bytes
  pub values : List Bytes
  pub info : Bytes
  pub protocol : Bytes
  pub hex : Bytes
  pub decode_err : Bytes
  pub truncated : Bool

pub data RespState : Type 0 where
  resp_none resp_first resp_prepare_params resp_prepare_columns resp_column_defs resp_rows :
      RespState

-- `ColumnDefinition41` as far as binary rows need it.
pub record ColumnDef : Type 0 where
  pub name : Bytes
  pub table : Bytes
  pub type : ℕ
  pub flags : ℕ

-- A Go `int` made from an unsigned 64-bit number may be negative: `below_zero n` is -(n + 1).
pub data GoInt : Type 0 where
  at_least_zero : ℕ → GoInt
  below_zero : ℕ → GoInt

pub record Decoder : Type 0 where
  pub conn_id : Bytes
  pub actor : Bytes
  pub index : ℕ
  pub in_handshake : Bool
  pub caps : ℕ
  pub state : RespState
  pub last_command : ℕ
  pub last_query : Bytes
  pub columns_wanted : GoInt
  pub columns_seen : ℕ
  pub params_wanted : ℕ
  pub params_seen : ℕ
  pub columns : List ColumnDef
  pub row_count : ℕ
  pub await_column_eof : Bool
  pub stmts : List (ℕ × Bytes)
  pub pending_prep : Bytes

unfoldable pub new_conn_decoder : Bytes → Bytes → Decoder
new_conn_decoder conn_id actor = record {
  conn_id = conn_id;
  actor = actor;
  index = 0;
  in_handshake = true;
  caps = 0;
  state = resp_none;
  last_command = 0;
  last_query = [];
  columns_wanted = at_least_zero 0;
  columns_seen = 0;
  params_wanted = 0;
  params_seen = 0;
  columns = [];
  row_count = 0;
  await_column_eof = false;
  stmts = [];
  pending_prep = [];
}

-- `f & bit != 0`.
unfoldable pub has_flag : ℕ → ℕ → Bool
has_flag f bit = not (bit_and f bit == 0)

abbrev pub cap_deprecate_eof : ℕ
cap_deprecate_eof = 0x01000000

abbrev pub cap_ssl : ℕ
cap_ssl = 0x800

abbrev pub status_in_trans : ℕ
status_in_trans = 0x0001

abbrev pub status_more_results : ℕ
status_more_results = 0x0008

-- The names of the bits that are set, in the order of the table.
unfoldable pub flag_names : List (ℕ × String) → ℕ → List Bytes
flag_names [] f = []
flag_names ((bit, name) ∷ all) f =
    let rest = flag_names all f in if has_flag f bit then str name ∷ rest else rest

abbrev pub status_flags : List (ℕ × String)
status_flags =
    (0x0001, "IN_TRANS")
    ∷ (0x0002, "AUTOCOMMIT")
    ∷ (0x0008, "MORE_RESULTS_EXISTS")
    ∷ (0x0010, "NO_GOOD_INDEX_USED")
    ∷ (0x0020, "NO_INDEX_USED")
    ∷ (0x0040, "CURSOR_EXISTS")
    ∷ (0x0080, "LAST_ROW_SENT")
    ∷ (0x0100, "DB_DROPPED")
    ∷ (0x0200, "NO_BACKSLASH_ESCAPES")
    ∷ (0x0400, "METADATA_CHANGED")
    ∷ (0x0800, "QUERY_WAS_SLOW")
    ∷ (0x1000, "PS_OUT_PARAMS")
    ∷ (0x2000, "IN_TRANS_READONLY")
    ∷ (0x4000, "SESSION_STATE_CHANGED")
    ∷ []

unfoldable pub status_flag_names : ℕ → List Bytes
status_flag_names f = flag_names status_flags f

abbrev pub notable_caps : List (ℕ × String)
notable_caps =
    (0x00000200, "PROTOCOL_41")
    ∷ (0x01000000, "DEPRECATE_EOF")
    ∷ (0x00080000, "PLUGIN_AUTH")
    ∷ (0x00008000, "SECURE_CONNECTION")
    ∷ (0x00002000, "TRANSACTIONS")
    ∷ (0x00010000, "MULTI_STATEMENTS")
    ∷ (0x00020000, "MULTI_RESULTS")
    ∷ (0x00100000, "CONNECT_ATTRS")
    ∷ (0x08000000, "QUERY_ATTRIBUTES")
    ∷ (0x00000800, "SSL")
    ∷ (0x00000020, "COMPRESS")
    ∷ (0x04000000, "ZSTD_COMPRESSION")
    ∷ []

-- A Go map from bytes to names.
unfoldable pub name_of : List (ℕ × String) → ℕ → Bytes → Bytes
name_of [] k missing = missing
name_of ((j, name) ∷ m) k missing = if j == k then str name else name_of m k missing

abbrev pub command_names : List (ℕ × String)
command_names =
    (0x00, "COM_SLEEP")
    ∷ (0x01, "COM_QUIT")
    ∷ (0x02, "COM_INIT_DB")
    ∷ (0x03, "COM_QUERY")
    ∷ (0x04, "COM_FIELD_LIST")
    ∷ (0x05, "COM_CREATE_DB")
    ∷ (0x06, "COM_DROP_DB")
    ∷ (0x07, "COM_REFRESH")
    ∷ (0x08, "COM_SHUTDOWN")
    ∷ (0x09, "COM_STATISTICS")
    ∷ (0x0a, "COM_PROCESS_INFO")
    ∷ (0x0c, "COM_PROCESS_KILL")
    ∷ (0x0d, "COM_DEBUG")
    ∷ (0x0e, "COM_PING")
    ∷ (0x11, "COM_CHANGE_USER")
    ∷ (0x16, "COM_STMT_PREPARE")
    ∷ (0x17, "COM_STMT_EXECUTE")
    ∷ (0x18, "COM_STMT_SEND_LONG_DATA")
    ∷ (0x19, "COM_STMT_CLOSE")
    ∷ (0x1a, "COM_STMT_RESET")
    ∷ (0x1b, "COM_SET_OPTION")
    ∷ (0x1c, "COM_STMT_FETCH")
    ∷ (0x1f, "COM_RESET_CONNECTION")
    ∷ []

abbrev pub hex_dump_limit : ℕ
hex_dump_limit = 512

unfoldable pub one_line : Bytes → Bytes
one_line s =
    let line = join (fields s) (str " ") in
    if ltb 160 (length line) then take 159 line ++ (0xe2 ∷ 0x80 ∷ 0xa6 ∷ []) else line
