-- ===== src/Store/Config.antt =====
-- The versioned configuration (store/store.go).
pub mod Versions
pub mod Revisions
use deadlocker.Base.{
  ℕ, zero, suc, ◌+◌, ◌%◌, ◌^◌, ltb, ◌≡◌, ◌≢◌, Bool, true, false, not, ◌&&◌, Option, none, some,
  List, Bytes, bytes_eq, str, decimal, trim_space, little_endian, le_bytes, reverse, if◌then◌else◌,
  ◌++◌,
}

-- A `float64` is given by its bits.
pub record LlmConfig : Type 0 where
  pub enabled : Bool
  pub base_url : Bytes
  pub api_key : Bytes
  pub model : Bytes
  pub temperature : Option ℕ
  pub max_tokens : Option ℕ
  pub top_p : Option ℕ
  pub top_k : Option ℕ
  pub min_p : Option ℕ
  pub repeat_penalty : Option ℕ
  pub presence_penalty : Option ℕ
  pub frequency_penalty : Option ℕ
  pub seed : Option ℕ
  pub effort : Bytes
  pub extra : Bytes
  pub max_steps : Option ℕ

pub record PrewarmConfig : Type 0 where
  pub prewarm : Bool
  pub prewarm_image : Bytes

pub record Config : Type 0 where
  pub llm : LlmConfig
  pub mysql : PrewarmConfig

pub record Version : Type 0 where
  pub version : ℕ
  pub saved_at : ℕ
  pub note : Bytes
  pub config : Config
  pub is_current : Bool

abbrev pub default_base_url : Bytes
default_base_url = str "http://localhost:11434/v1"

abbrev pub default_config : Config
default_config = record {
  llm = record {
    enabled = false;
    base_url = default_base_url;
    api_key = str "";
    model = str "";
    temperature = none;
    max_tokens = none;
    top_p = none;
    top_k = none;
    min_p = none;
    repeat_penalty = none;
    presence_penalty = none;
    frequency_penalty = none;
    seed = none;
    effort = str "";
    extra = str "";
    max_steps = none;
  };
  mysql = record { prewarm = false; prewarm_image = str "" };
}

unfoldable pub normalise : Config → Config
normalise c =
    if bytes_eq c.llm.base_url (str "")
    then record c { llm = record (c.llm) { base_url = default_base_url } }
    else c

-- A stored limit is a Go `int`, which may be negative; a negative one counts as nought here, and
-- both fall back to the default.
unfoldable pub max_rounds : LlmConfig → ℕ
max_rounds c = elim c.max_steps [ none ↦ 24 | some n ↦ if ltb 0 n then n else 24 ]

unfoldable pub prewarm_image_of : PrewarmConfig → Bytes
prewarm_image_of c =
    let s = trim_space c.prewarm_image in if bytes_eq s (str "") then str "mysql:8.4" else s

unfoldable pub is_ready : Config → Bool
is_ready c =
    c.llm.enabled && not (bytes_eq c.llm.base_url (str "")) && not (bytes_eq c.llm.model (str ""))

unfoldable pub redacted : Version → Version
redacted v = if bytes_eq v.config.llm.api_key (str "") then v else record v {
  config = record (v.config) { llm = record (v.config.llm) { api_key = str "••••••••" } };
}

-- A key of the bucket: a `uint64`, highest byte first.
unfoldable pub encode_version : ℕ → Bytes
encode_version v = reverse (le_bytes 8 v)

unfoldable pub decode_version : Bytes → ℕ
decode_version b = little_endian (reverse b)

-- What the code relies on of bbolt and of encoding/json: the two buckets, within one transaction, and
-- the payloads `P` of the versions.
pub record Database (S P : Type 0) : Type 0 where
  pub config_get : S → Bytes → Option P
  pub config_put : S → Bytes → P → S
  pub config_is_empty : S → Bool
  pub current_get : S → Option Bytes
  pub current_put : S → Bytes → S
  pub marshal : Version → P
  pub unmarshal : P → Option Version
  pub config_get-put_self : (s : S) (k : Bytes) (v : P) → config_get (config_put s k v) k ≡ some v
  pub config_get-put_ne :
      (s : S) (k j : Bytes) (v : P) → k ≢ j → config_get (config_put s k v) j ≡ config_get s j
  pub config_get-current_put :
      (s : S) (k v : Bytes) → config_get (current_put s v) k ≡ config_get s k
  pub current_get-put : (s : S) (v : Bytes) → current_get (current_put s v) ≡ some v
  pub config_get-empty : (s : S) (k : Bytes) → config_is_empty s ≡ true → config_get s k ≡ none
  pub unmarshal-marshal : (v : Version) → unmarshal (marshal v) ≡ some v

-- The errors of `Restore`.
pub data StoreError : Type 0 where
  no_such_version : ℕ → StoreError
  unreadable : StoreError

pub data Saved (S : Type 0) : Type 0 where
  rejected : StoreError → Saved S
  saved : S → Version → Saved S

module _ {S P : Type 0} (db : Database S P) where
  unfoldable pub write_version : S → Version → S
  write_version s v =
      db.current_put (db.config_put s (encode_version v.version) (db.marshal v))
        (encode_version v.version)

  -- `Open`, in a fresh database: version 1 is the defaults.
  unfoldable pub open_store : S → ℕ → S
  open_store s now =
      if db.config_is_empty s
      then write_version s (record {
        version = 1;
        saved_at = now;
        note = str "initial defaults";
        config = default_config;
        is_current = false;
      })
      else s

  -- The next `uint64`.
  unfoldable pub next_version : S → ℕ
  next_version s = elim (db.current_get s) [
    | none ↦ 1
    | some raw ↦ (decode_version raw + 1) % 2 ^ 64
  ]

  unfoldable pub current_payload : ℕ → Option P → Option (Config × ℕ)
  current_payload n none = some (normalise default_config, n)
  current_payload n (some payload) = elim (db.unmarshal payload) [
    | none ↦ none
    | some v ↦ some (normalise v.config, n)
  ]

  -- `none` is the error of a payload that is no version.
  unfoldable pub current : S → Option (Config × ℕ)
  current s = elim (db.current_get s) [
    | none ↦ some (normalise default_config, 0)
    | some raw ↦ current_payload (decode_version raw) (db.config_get s raw)
  ]

  unfoldable pub new_version : S → ℕ → Bytes → Config → Version
  new_version s now note c = record {
    version = next_version s;
    saved_at = now;
    note = note;
    config = c;
    is_current = false;
  }

  -- The version that is returned is marked as current; what is stored is not.
  unfoldable pub append_version : S → Version → Saved S
  append_version s v = saved (write_version s v) (record v { is_current = true })

  unfoldable pub save : S → Config → Bytes → ℕ → Saved S
  save s c note now = append_version s (new_version s now note (normalise c))

  unfoldable pub restore_payload : S → ℕ → ℕ → Option P → Saved S
  restore_payload s n now none = rejected (no_such_version n)
  restore_payload s n now (some payload) = elim (db.unmarshal payload) [
    | none ↦ rejected unreadable
    | some old ↦
        append_version s (new_version s now (str "restored from version " ++ decimal n) old.config)
  ]

  unfoldable pub restore : S → ℕ → ℕ → Saved S
  restore s n now = restore_payload s n now (db.config_get s (encode_version n))
