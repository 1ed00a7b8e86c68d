-- ===== src/Engine/Bus.antt =====
-- The bus of a run's events (engine/bus.go).
pub mod Replay
use deadlocker.Base.{
  ℕ, zero, suc, ◌+◌, ◌/◌, Bool, true, false, Option, none, some, List, [], ◌∷◌, ◌++◌, length, drop,
  ltb, if◌then◌else◌,
}
use deadlocker.Feed.{
  Item, Channel, stamp, after_seq, update_channel, close_channel, send_all, has_id, remove_id,
  close_all,
}

abbrev pub history_limit : ℕ
history_limit = 20000

-- `channels` holds the channels that `Subscribe` made, and `subs` the ids of those that are
-- subscribed.
pub record Bus {ℓ} (A : Type ℓ) : Type ℓ where
  pub seq : ℕ
  pub history : List (Item A)
  pub subs : List ℕ
  pub channels : List (Channel A)
  pub next_sub : ℕ
  pub closed : Bool

module _ {ℓ} {A : Type ℓ} where
  unfoldable pub new_bus : Bus A
  new_bus = record { seq = 0; history = []; subs = []; channels = []; next_sub = 0; closed = false }

  -- The oldest quarter goes at once.
  unfoldable pub trim_history : List (Item A) → List (Item A)
  trim_history h = if ltb history_limit (length h) then drop (history_limit / 4) h else h

  -- `Publish` while it holds the lock: the stamped event, and the subscribers to send it to.
  unfoldable pub begin_publish : Bus A → ℕ → Item A → Option (Bus A × Item A × List ℕ)
  begin_publish b now e =
      let e' = stamp (b.seq + 1) now e in
      if b.closed
      then none
      else some (
        record b { seq = b.seq + 1; history = trim_history (b.history ++ (e' ∷ [])) },
        e',
        b.subs,
      )

  -- `Publish` after it let the lock go; `none` is the panic of a send to a closed channel.
  unfoldable pub deliver : Bus A → Item A → List ℕ → Option (Bus A)
  deliver b e ids = elim (send_all 512 e b.channels ids) [
    | none ↦ none
    | some cs ↦ some (record b { channels = cs })
  ]

  unfoldable pub publish : Bus A → ℕ → Item A → Option (Bus A)
  publish b now e = elim (begin_publish b now e) [
    | none ↦ some b
    | some (b', e', ids) ↦ deliver b' e' ids
  ]

  -- `History`, and the backlog of `Subscribe`.
  unfoldable pub history_after : Bus A → ℕ → List (Item A)
  history_after b since = after_seq since b.history

  -- The new subscription's id, or none when the bus is closed: its channel is closed then.
  unfoldable pub subscribe : Bus A → ℕ → Bus A × Option ℕ × List (Item A)
  subscribe b since = if b.closed then (b, none, history_after b since) else (
    record b {
      next_sub = b.next_sub + 1;
      subs = b.next_sub ∷ b.subs;
      channels = record { id = b.next_sub; queue = []; is_open = true } ∷ b.channels;
    },
    some b.next_sub,
    history_after b since,
  )

  -- The function that `Subscribe` returns.
  unfoldable pub cancel : Bus A → ℕ → Bus A
  cancel b id =
      if has_id b.subs id
      then record b {
        subs = remove_id b.subs id;
        channels = update_channel close_channel b.channels id;
      }
      else b

  unfoldable pub close : Bus A → Bus A
  close b =
      if b.closed
      then b
      else record b { closed = true; subs = []; channels = close_all b.channels b.subs }
