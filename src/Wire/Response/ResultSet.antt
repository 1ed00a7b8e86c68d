-- ===== src/Wire/Response/ResultSet.antt =====
-- A whole result set, from its header to the end of its rows (wire/decode.go).
use deadlocker.Base.{
  ℕ, suc, ◌+◌, ◌≡◌, ◌<◌, ◌^◌, false, not, List, [], ◌∷◌, ◌++◌, map, length, if◌then◌else◌, arith,
  append_assoc, All,
}
use deadlocker.Wire.Event.{
  resp_none, resp_first, resp_column_defs, resp_rows, at_least_zero, Decoder, Formats,
}
use deadlocker.Wire.Reader.RoundTrip.{len_enc}
use deadlocker.Wire.Packet.{Packet}
use deadlocker.Wire.Decoder.{deprecate_eof}
use deadlocker.Wire.Response.{reached, count_definition}
use deadlocker.Wire.Response.Steps.{
  reply, replies, replies-append, IsData, IsEnd, definition_of, reply_definition, reply_row,
  reply_rows_eof, reply_columns_eof, reply_header,
}

-- A decoder in the command phase that waits for definitions.
abbrev InColumns : Decoder → Type 0
InColumns d = (d.in_handshake ≡ false) × (d.state ≡ resp_column_defs)

abbrev Data : List (Packet × ℕ) → Type 0
Data = All (λ p. IsData p.0)

-- One definition, while more are wanted and at the last.
definition_step :
    (std : Formats) (d : Decoder) (p : Packet × ℕ) (more : ℕ)
    → InColumns d
    → IsData p.0
    → d.columns_wanted ≡ at_least_zero (d.columns_seen + suc (suc more))
    → reply std d p ≡ record d {
      index = d.index + 1;
      columns_seen = d.columns_seen + 1;
      columns = d.columns ++ (definition_of p ∷ []);
    }
unfolding count_definition reached
definition_step std d p more (h, s) k w = ground (arith, reply_definition std d p h s k)

definition_last :
    (std : Formats) (d : Decoder) (p : Packet × ℕ)
    → InColumns d
    → IsData p.0
    → d.columns_wanted ≡ at_least_zero (d.columns_seen + 1)
    → reply std d p ≡ record d {
      index = d.index + 1;
      columns_seen = d.columns_seen + 1;
      columns = d.columns ++ (definition_of p ∷ []);
      state = if d.await_column_eof then resp_column_defs else resp_rows;
    }
unfolding count_definition reached
definition_last std d p (h, s) k w = ground (arith, reply_definition std d p h s k)

-- The whole block: the definitions are kept in order, and rows follow at once unless an EOF is due.
definitions :
    (std : Formats) (p : Packet × ℕ) (ps : List (Packet × ℕ)) (d : Decoder)
    → InColumns d
    → Data (p ∷ ps)
    → d.columns_wanted ≡ at_least_zero (d.columns_seen + length (p ∷ ps))
    → replies std d (p ∷ ps) ≡ record d {
      index = d.index + length (p ∷ ps);
      columns_seen = d.columns_seen + length (p ∷ ps);
      columns = d.columns ++ map definition_of (p ∷ ps);
      state = if d.await_column_eof then resp_column_defs else resp_rows;
    }
unfolding replies
definitions std p [] d i (k, _) w = definition_last std d p i k w
definitions std p (q ∷ qs) d (h, s) (k, ks) w = ground (
  arith,
  definition_step std d p (length qs) (h, s) k w,
  definitions std q qs (reply std d p),
  append_assoc d.columns (definition_of p ∷ []) (map definition_of (q ∷ qs)),
)

-- Rows are counted and nothing else.
rows :
    (std : Formats) (ps : List (Packet × ℕ)) (d : Decoder)
    → d.in_handshake ≡ false
    → d.state ≡ resp_rows
    → Data ps
    → replies std d ps
      ≡ record d { index = d.index + length ps; row_count = d.row_count + length ps }
unfolding replies
rows std [] d h s k = ground arith
rows std (p ∷ ps) d h s (k, ks) =
    ground (arith, reply_row std d p h s k, rows std ps (reply std d p))

-- Rows and the packet that ends them.
module _ (std : Formats) (d : Decoder) (found : List (Packet × ℕ)) (end : Packet × ℕ)
    (h : d.in_handshake ≡ false) (s : d.state ≡ resp_rows) (ks : Data found) (k : IsEnd end.0) where
  rows_then_eof :
      deprecate_eof d ≡ false
      → replies std d (found ++ (end ∷ [])) ≡ record d {
        index = d.index + length found + 1;
        row_count = d.row_count + length found;
        state = resp_none;
      }
  unfolding replies deprecate_eof
  rows_then_eof dep = ground (
    arith,
    replies-append std d found (end ∷ []),
    rows std found d h s ks,
    reply_rows_eof std (replies std d found) end,
  )

-- The decoder when the rows of a result set have been read: `n` is the number of packets so far.
abbrev pub after_rows : Decoder → ℕ → List (Packet × ℕ) → List (Packet × ℕ) → Decoder
after_rows d n defs found = record d {
  index = d.index + n;
  columns_wanted = at_least_zero (length defs);
  columns_seen = length defs;
  columns = map definition_of defs;
  row_count = length found;
  state = resp_rows;
  await_column_eof = false;
}

module _ (std : Formats) (d : Decoder) (header p : Packet × ℕ) (ps found : List (Packet × ℕ))
    (command : d.in_handshake ≡ false) (first : d.state ≡ resp_first)
    (announced : header.0.payload ≡ len_enc (length (p ∷ ps))) (small : length (p ∷ ps) < 2 ^ 63)
    (defs_ok : Data (p ∷ ps)) (rows_ok : Data found) where
  -- The decoder behind the definitions.
  abbrev after_defs : Decoder
  after_defs = record d {
    index = d.index + 1 + length (p ∷ ps);
    columns_wanted = at_least_zero (length (p ∷ ps));
    columns_seen = length (p ∷ ps);
    columns = map definition_of (p ∷ ps);
    row_count = 0;
    state = if not (deprecate_eof d) then resp_column_defs else resp_rows;
    await_column_eof = not (deprecate_eof d);
  }

  header_and_definitions : replies std d (header ∷ p ∷ ps) ≡ after_defs
  unfolding replies
  header_and_definitions = ground (
    arith,
    reply_header std d (length (p ∷ ps)) header command first announced,
    definitions std p ps (reply std d header),
  )

  -- The same of a connection without DEPRECATE_EOF, whose definitions and rows each end with an
  -- EOF packet: the definitions are the columns, the rows are counted, and the response is over,
  -- whatever the status flags of the last EOF packet say.
  pub result_set_eof :
      (eof end : Packet × ℕ)
      → deprecate_eof d ≡ false
      → IsEnd eof.0
      → IsEnd end.0
      → replies std d ((header ∷ p ∷ ps) ++ (eof ∷ found ++ (end ∷ [])))
        ≡ record (after_rows d (length found + length ps + 4) (p ∷ ps) found) { state = resp_none }
  unfolding replies deprecate_eof
  result_set_eof eof end dep k k' = ground (
    arith,
    replies-append std d (header ∷ p ∷ ps) (eof ∷ found ++ (end ∷ [])),
    header_and_definitions,
    reply_columns_eof std after_defs eof,
    rows_then_eof std
        (record after_defs {
          index = after_defs.index + 1;
          await_column_eof = false;
          state = resp_rows;
        })
        found end,
  )
