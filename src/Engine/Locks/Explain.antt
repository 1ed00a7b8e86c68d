-- ===== src/Engine/Locks/Explain.antt =====
-- The sentences that the locks of a snapshot are shown with (engine/inspect.go, `explainLockMode` and
-- `explainMDL`).
use deadlocker.Base.{
  ◌==◌, Bool, false, ◌||◌, List, [], ◌∷◌, ◌++◌, Bytes, bytes_eq, str, to_upper, trim_space,
  if◌then◌else◌,
}
use deadlocker.Engine.Data.Key.{comma, equal_fold}

unfoldable pub quote_data : Bytes → Bytes
quote_data d =
    let t = trim_space d in
    if bytes_eq t []
    then str "the record"
    else if bytes_eq t (str "supremum pseudo-record")
    then str "the supremum pseudo-record"
    else str "key " ++ t

-- A mode as `strings.Split` by commas leaves it: its first part and the others.
pub record ModeParts : Type 0 where
  pub base : Bytes
  pub flags : List Bytes

unfoldable pub mode_parts : Bytes → ModeParts
mode_parts [] = record { base = []; flags = [] }
mode_parts (c ∷ s) =
    let rest = mode_parts s in
    if c == comma
    then record { base = []; flags = rest.base ∷ rest.flags }
    else record { base = c ∷ rest.base; flags = rest.flags }

unfoldable pub is_flagged : List Bytes → Bytes → Bool
is_flagged [] flag = false
is_flagged (p ∷ ps) flag = bytes_eq (trim_space p) flag || is_flagged ps flag

unfoldable pub table_sentence : Bytes → Bytes
table_sentence mode =
    let upper = to_upper mode in
    if bytes_eq upper (str "IX")
    then str "Intention exclusive: signals intent to take row-level X locks on this table."
    else if bytes_eq upper (str "IS")
    then str "Intention shared: signals intent to take row-level S locks on this table."
    else if bytes_eq upper (str "X")
    then str "Table-level exclusive lock."
    else if bytes_eq upper (str "S")
    then str "Table-level shared lock."
    else str "Table-level " ++ mode ++ str " lock."

unfoldable pub record_sentence : ModeParts → Bytes → Bytes
record_sentence m data_text =
    let kind = if bytes_eq m.base (str "S") then str "shared" else str "exclusive" in
    if is_flagged m.flags (str "INSERT_INTENTION")
    then str "Insert intention lock: this transaction wants to insert into the gap before "
      ++ quote_data data_text
      ++ str ". It conflicts with any gap lock another transaction holds over that same gap "
      ++ str "— this is the classic cause of insert-vs-gap-lock waits."
    else if is_flagged m.flags (str "GAP")
    then str "Gap lock ("
      ++ kind
      ++ str "): locks the open interval before "
      ++ quote_data data_text
      ++ str
          " without locking the row itself. It blocks inserts into that range but not updates of "
      ++ str "existing rows. A gap lock is taken even when no matching row exists."
    else if is_flagged m.flags (str "REC_NOT_GAP")
    then str "Record lock ("
      ++ kind
      ++ str "): locks only the index record "
      ++ quote_data data_text
      ++ str ", leaving the gap before it free for inserts."
    else if bytes_eq data_text (str "supremum pseudo-record")
    then str "Next-key lock ("
      ++ kind
      ++ str ") on the supremum pseudo-record: locks the gap from the last real key to the end of "
      ++ str "the index, so any insert above the highest key waits."
    else str "Next-key lock ("
      ++ kind
      ++ str "): the index record "
      ++ quote_data data_text
      ++ str
          " plus the gap before it. This is the default in REPEATABLE READ and locks both the row "
      ++ str "and the range preceding it."

unfoldable pub explain_lock_mode : Bytes → Bytes → Bytes → Bytes
explain_lock_mode lock_type mode data_text =
    if equal_fold lock_type (str "TABLE")
    then table_sentence mode
    else record_sentence (mode_parts (to_upper mode)) data_text

unfoldable pub explain_mdl : Bytes → Bytes → Bytes
explain_mdl lock_type status =
    let upper = to_upper lock_type in
    if equal_fold status (str "PENDING")
    then str
        "Waiting for this metadata lock. Everything queued behind it waits too, including plain "
      ++ str "reads — an MDL queue is strictly ordered."
    else if bytes_eq upper (str "SHARED_READ")
    then str
        "Held by a transaction reading this table. Harmless against other readers, but it blocks "
      ++ str "any ALTER TABLE until the transaction ends."
    else if bytes_eq upper (str "SHARED_WRITE")
    then str "Held by a transaction writing to this table. Blocks schema changes until it commits."
    else if bytes_eq upper (str "EXCLUSIVE")
    then str "An exclusive metadata lock: a schema change holds this, and every statement touching "
      ++ str "the table waits."
    else if bytes_eq upper (str "SHARED_UPGRADABLE")
    then str
        "Held during the copy phase of an online DDL; it upgrades to exclusive at the end, which "
      ++ str "is when brief stalls appear."
    else if bytes_eq upper (str "INTENTION_EXCLUSIVE")
    then str
        "A table-scope intention lock, taken before writing. Ordinary and not usually a source "
      ++ str "of blocking."
    else if bytes_eq upper (str "SHARED_NO_READ_WRITE") || bytes_eq upper (str "SHARED_NO_WRITE")
    then str "A restrictive metadata lock taken by DDL; readers or writers wait behind it."
    else str "Metadata lock " ++ lock_type ++ str " on this object."
