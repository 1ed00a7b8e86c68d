-- ===== src/Wire/Response/Prepared.antt =====
-- A statement from its preparation to its execution (wire/decode.go).
use deadlocker.Base.{
  ℕ, ◌+◌, ◌≡◌, ◌<◌, ◌^◌, refl, ◌∙◌, ap, Bool, true, false, some, [], ◌∷◌, ◌++◌, Bytes, ◌==◌,
  if◌then◌else◌, arith, str, map_get, map_set, map_get-map_set, or_default,
}
use deadlocker.Wire.Event.{
  client_to_server, server_to_client, Event, resp_first, at_least_zero, Decoder, Formats,
}
use deadlocker.Wire.Reader.{new_reader, skip}
use deadlocker.Wire.Reader.RoundTrip.{at, byte-at, fixed-at}
use deadlocker.Base.{le_bytes}
use deadlocker.Wire.Packet.{Packet}
use deadlocker.Wire.Command.{dispatch, com_stmt_prepare, com_stmt_execute, decode_command}
use deadlocker.Wire.Response.{
  prepare_state, prepare_ok, decode_first_response, by_state, decode_response,
}
use deadlocker.Wire.Response.Packets.{uint16-at, uint32-at, rest_of_packet-at}
use deadlocker.Wire.Decode.{decode, decode_by, blank_event}

-- The answer to a preparation.
pub prepare_ok_payload : ℕ → ℕ → ℕ → ℕ → Bytes
prepare_ok_payload id num_cols num_params warnings =
    0x00
    ∷ (le_bytes 4 id
        ++ (le_bytes 2 num_cols ++ (le_bytes 2 num_params ++ (0x00 ∷ le_bytes 2 warnings))))

skip-at : (done rest : Bytes) (c : ℕ) → skip (at done (c ∷ rest)) 1 ≡ at (done ++ (c ∷ [])) rest
unfolding skip
skip-at done rest c = ap (λ r. r.0) (fixed-at done (c ∷ []) rest 1 refl)

-- The decoder right after the answer.
abbrev after_prepare : Decoder → ℕ → ℕ → ℕ → Decoder
after_prepare d id num_cols num_params = record d {
  stmts = map_set d.stmts id d.pending_prep;
  pending_prep = [];
  params_wanted = num_params;
  params_seen = 0;
  columns_wanted = at_least_zero num_cols;
  columns_seen = 0;
  columns = [];
  state = prepare_state num_params num_cols;
}

prepare_ok-fields :
    (d : Decoder) (id num_cols num_params warnings : ℕ) (ev : Event)
    → id < 2 ^ 32
    → num_cols < 2 ^ 16
    → num_params < 2 ^ 16
    → (prepare_ok d (new_reader (prepare_ok_payload id num_cols num_params warnings)) ev).0
      ≡ after_prepare d id num_cols num_params
unfolding prepare_ok prepare_ok_payload new_reader
prepare_ok-fields d id num_cols num_params warnings ev h1 h2 h3 =
    let tail = 0x00 ∷ le_bytes 2 warnings in
    let params = le_bytes 2 num_params ++ tail in
    ground (
      arith,
      byte-at [] (le_bytes 4 id ++ (le_bytes 2 num_cols ++ params)) 0x00,
      uint32-at (0x00 ∷ []) (le_bytes 2 num_cols ++ params) id h1,
      uint16-at ((0x00 ∷ []) ++ le_bytes 4 id) params num_cols h2,
      uint16-at (((0x00 ∷ []) ++ le_bytes 4 id) ++ le_bytes 2 num_cols) tail num_params h3,
    )

abbrev packet : ℕ → Bytes → Packet
packet seq payload = record { seq = seq; payload = payload; raw = payload }

-- The preparation is remembered until its answer.
sent_prepare :
    (std : Formats) (d : Decoder) (p : Packet) (q : Bytes) (now : ℕ)
    → d.in_handshake ≡ false
    → p.seq ≡ 0
    → p.payload ≡ 0x16 ∷ q
    → (decode std d client_to_server p now).0
      ≡ record d { index = d.index + 1; last_command = 0x16; pending_prep = q; state = resp_first }
unfolding decode decode_by decode_command dispatch com_stmt_prepare new_reader
sent_prepare std d p q now h s e =
    ground (arith, byte-at [] q 0x16, rest_of_packet-at (0x16 ∷ []) q)

answered_prepare :
    (std : Formats) (d : Decoder) (p : Packet) (id num_cols num_params warnings now : ℕ)
    → d.in_handshake ≡ false
    → d.state ≡ resp_first
    → d.last_command ≡ 0x16
    → p.payload ≡ prepare_ok_payload id num_cols num_params warnings
    → id < 2 ^ 32
    → num_cols < 2 ^ 16
    → num_params < 2 ^ 16
    → (decode std d server_to_client p now).0
      ≡ after_prepare (record d { index = d.index + 1 }) id num_cols num_params
unfolding decode decode_by decode_response by_state decode_first_response prepare_ok_payload
answered_prepare std d p id num_cols num_params warnings now h s l e h1 h2 h3 = ground (
  arith,
  prepare_ok-fields (record d { index = d.index + 1 }) id num_cols num_params warnings
      (blank_event (record d { index = d.index + 1 }) (some server_to_client) p now (str "command"))
      h1 h2 h3,
)

executed :
    (std : Formats) (d : Decoder) (p : Packet) (id now : ℕ) (rest : Bytes)
    → d.in_handshake ≡ false
    → p.seq ≡ 0
    → p.payload ≡ 0x17 ∷ (le_bytes 4 id ++ rest)
    → id < 2 ^ 32
    → (decode std d client_to_server p now).1.query ≡ or_default [] (map_get d.stmts id)
unfolding decode decode_by decode_command dispatch com_stmt_execute new_reader
executed std d p id now rest h s e small =
    ground (arith, byte-at [] (le_bytes 4 id ++ rest) 0x17, uint32-at (0x17 ∷ []) rest id small)

-- In the command phase: a client prepares a statement, the server answers with PREPARE_OK under an
-- id, and the client then executes a statement by an id. The event of the execution shows the SQL
-- that was prepared if the id is the same, and else the SQL that the other id had before.
pub execute_shows_prepared :
    (std : Formats) (d : Decoder) (p a x : Packet) (q rest : Bytes)
    (id other num_cols num_params warnings t1 t2 t3 : ℕ)
    → d.in_handshake ≡ false
    → p.seq ≡ 0
    → p.payload ≡ 0x16 ∷ q
    → a.payload ≡ prepare_ok_payload id num_cols num_params warnings
    → x.seq ≡ 0
    → x.payload ≡ 0x17 ∷ (le_bytes 4 other ++ rest)
    → id < 2 ^ 32
    → other < 2 ^ 32
    → num_cols < 2 ^ 16
    → num_params < 2 ^ 16
    → (decode std
        (decode std (decode std d client_to_server p t1).0 server_to_client a t2).0
        client_to_server
        x
        t3).1.query
      ≡ (if id == other then q else or_default [] (map_get d.stmts other))
unfolding or_default
execute_shows_prepared std d p a x q rest id other num_cols num_params warnings t1 t2 t3 h s e ea sx
      ex hi ho hc hp =
    let sent = sent_prepare std d p q t1 h s e in
    let mid = record d {
      index = d.index + 1;
      last_command = 0x16;
      pending_prep = q;
      state = resp_first;
    } in
    let answered =
      answered_prepare std mid a id num_cols num_params warnings t2 h refl refl ea hi hc hp in
    let ready = after_prepare (record mid { index = mid.index + 1 }) id num_cols num_params in
    rw (sent, answered)
      (executed std ready x other t3 rest h sx ex ho
        ∙ rw (map_get-map_set d.stmts id other q) (found (id == other)))
  where
    found :
        (b : Bool)
        → or_default [] (if b then some q else map_get d.stmts other)
          ≡ (if b then q else or_default [] (map_get d.stmts other))
    found true = refl
    found false = refl
