-- ===== src/Agentapi/Hub.antt =====
-- The hub of the activity feed (agentapi/hub.go).
pub mod Replay
use deadlocker.Base.{
  ℕ, ◌+◌, ◌-◌, Bool, true, false, Option, none, some, List, [], ◌∷◌, ◌++◌, length, drop, ltb,
  if◌then◌else◌,
}
use deadlocker.Feed.{
  Item, Channel, stamp, after_seq, update_channel, close_channel, send_all, has_id, remove_id,
}

abbrev pub activity_history : ℕ
activity_history = 500

pub record Hub {ℓ} (A : Type ℓ) : Type ℓ where
  pub seq : ℕ
  pub history : List (Item A)
  pub subs : List ℕ
  pub channels : List (Channel A)
  pub next_sub : ℕ

module _ {ℓ} {A : Type ℓ} where
  unfoldable pub new_hub : Hub A
  new_hub = record { seq = 0; history = []; subs = []; channels = []; next_sub = 0 }

  -- Only the last ones stay.
  unfoldable pub keep_last : List (Item A) → List (Item A)
  keep_last h = if ltb activity_history (length h) then drop (length h - activity_history) h else h

  -- `Publish` while it holds the lock. The stamped activity is also what `Publish` returns.
  unfoldable pub begin_publish : Hub A → ℕ → Item A → Hub A × Item A × List ℕ
  begin_publish h now a =
      let a' = stamp (h.seq + 1) now a in
      (record h { seq = h.seq + 1; history = keep_last (h.history ++ (a' ∷ [])) }, a', h.subs)

  -- `Publish` after it let the lock go; `none` is the panic of a send to a closed channel.
  unfoldable pub deliver : Hub A → Item A → List ℕ → Option (Hub A)
  deliver h a ids = elim (send_all 128 a h.channels ids) [
    | none ↦ none
    | some cs ↦ some (record h { channels = cs })
  ]

  unfoldable pub publish : Hub A → ℕ → Item A → Option (Hub A)
  publish h now a = let (h', a', ids) = begin_publish h now a in deliver h' a' ids

  -- The hub, the new subscription's id, and the backlog.
  unfoldable pub subscribe : Hub A → ℕ → Hub A × ℕ × List (Item A)
  subscribe h since = (
    record h {
      next_sub = h.next_sub + 1;
      subs = h.next_sub ∷ h.subs;
      channels = record { id = h.next_sub; queue = []; is_open = true } ∷ h.channels;
    },
    h.next_sub,
    after_seq since h.history,
  )

  -- The function that `Subscribe` returns.
  unfoldable pub cancel : Hub A → ℕ → Hub A
  cancel h id =
      if has_id h.subs id
      then record h {
        subs = remove_id h.subs id;
        channels = update_channel close_channel h.channels id;
      }
      else h
