-- ===== src/Feed.antt =====
-- What the run's bus (internal/engine/bus.go) and the activity hub (internal/agentapi/hub.go) have in
-- common: items with a sequence number, and subscribers' channels.
pub mod Retained
pub mod Delivery
use deadlocker.Base.{
  ℕ, zero, suc, ◌+◌, ◌≤◌, ◌<◌, ◌≡◌, refl, Bool, true, false, not, Option, none, some, List, [], ◌∷◌,
  ◌++◌, length, ◌==◌, leb, ltb, if◌then◌else◌, arith,
}

-- The fields of `Event` and of `Activity` that publishing reads and writes; `body` is the rest of
-- them, and `at` is none for the zero time.
pub record Item {ℓ} (A : Type ℓ) : Type ℓ where
  pub seq : ℕ
  pub at : Option ℕ
  pub body : A

-- A subscriber's channel.
pub record Channel {ℓ} (A : Type ℓ) : Type ℓ where
  pub id : ℕ
  pub queue : List (Item A)
  pub is_open : Bool

-- Whether a map of subscribers has the id, and the map without it.
unfoldable pub has_id : List ℕ → ℕ → Bool
has_id [] id = false
has_id (x ∷ xs) id = if x == id then true else has_id xs id

unfoldable pub remove_id : List ℕ → ℕ → List ℕ
remove_id [] id = []
remove_id (x ∷ xs) id = let rest = remove_id xs id in if x == id then rest else x ∷ rest

module _ {ℓ} {A : Type ℓ} where
  unfoldable pub stamp : ℕ → ℕ → Item A → Item A
  stamp seq now e = record e { seq = seq; at = elim e.at [ none ↦ some now | some t ↦ some t ] }

  -- The loop over the history: the items after a sequence number.
  unfoldable pub after_seq : ℕ → List (Item A) → List (Item A)
  after_seq since [] = []
  after_seq since (e ∷ es) =
      let rest = after_seq since es in if ltb since e.seq then e ∷ rest else rest

  unfoldable pub find_channel : List (Channel A) → ℕ → Option (Channel A)
  find_channel [] id = none
  find_channel (c ∷ cs) id = if c.id == id then some c else find_channel cs id

  unfoldable pub update_channel : (Channel A → Channel A) → List (Channel A) → ℕ → List (Channel A)
  update_channel f [] id = []
  update_channel f (c ∷ cs) id =
      let rest = update_channel f cs id in if c.id == id then f c ∷ cs else c ∷ rest

  unfoldable pub close_channel : Channel A → Channel A
  close_channel c = record c { is_open = false }

  -- The `select` with a `default`: a full channel misses the item.
  unfoldable pub enqueue : ℕ → Item A → Channel A → Channel A
  enqueue capacity e c =
      if ltb (length c.queue) capacity then record c { queue = c.queue ++ (e ∷ []) } else c

  -- To send on a closed channel is a panic, also in a `select`; `none` is the panic.
  unfoldable pub send_open :
      ℕ → Item A → List (Channel A) → ℕ → Option (Channel A) → Option (List (Channel A))
  send_open capacity e cs id none = none
  send_open capacity e cs id (some c) =
      if c.is_open then some (update_channel (enqueue capacity e) cs id) else none

  unfoldable pub send : ℕ → Item A → List (Channel A) → ℕ → Option (List (Channel A))
  send capacity e cs id = send_open capacity e cs id (find_channel cs id)

  unfoldable pub send_all : ℕ → Item A → List (Channel A) → List ℕ → Option (List (Channel A))
  send_all capacity e cs [] = some cs
  send_all capacity e cs (id ∷ ids) = elim (send capacity e cs id) [
    | none ↦ none
    | some cs' ↦ send_all capacity e cs' ids
  ]

  unfoldable pub close_all : List (Channel A) → List ℕ → List (Channel A)
  close_all cs [] = cs
  close_all cs (id ∷ ids) = close_all (update_channel close_channel cs id) ids
