-- ===== src/Feed/Delivery.antt =====
-- Sending to the subscribers' channels, open and closed ones.
use deadlocker.Base.{
  ℕ, ◌≡◌, ◌≢◌, inl, inr, refl, ◌∙◌, Bool, true, false, none, some, Option-cases, List, [], ◌∷◌,
  ◌==◌, arith, Bool-cases,
}
use deadlocker.Feed.{
  Item, Channel, find_channel, update_channel, close_channel, enqueue, send, send_open, send_all,
  has_id, remove_id,
}

has_id-remove :
    (ids : List ℕ) (id other : ℕ)
    → has_id (remove_id ids id) other ≡ true
    → (id ≢ other) × (has_id ids other ≡ true)
unfolding has_id remove_id
has_id-remove [] id other h = absurd (ground arith)
has_id-remove (x ∷ xs) id other h = elim (Bool-cases (x == id)) [
  | inl same ↦ let (ne, rest) = has_id-remove xs id other (ground arith) in (ne, ground arith)
  | inr differ ↦ elim (Bool-cases (x == other)) [
    | inl here ↦ ((λ e. ground arith), ground arith)
    | inr there ↦ let (ne, rest) = has_id-remove xs id other (ground arith) in (ne, ground arith)
  ]
]

module _ {ℓ} {A : Type ℓ} where
  abbrev pub IsOpen : List (Channel A) → ℕ → Type ℓ
  IsOpen cs id = (c : Channel A) × (find_channel cs id ≡ some c) × (c.is_open ≡ true)

  abbrev pub IsClosed : List (Channel A) → ℕ → Type ℓ
  IsClosed cs id = (c : Channel A) × (find_channel cs id ≡ some c) × (c.is_open ≡ false)

  -- Every id has an open channel.
  abbrev pub Live : List ℕ → List (Channel A) → Type ℓ
  Live ids cs = (id : ℕ) → has_id ids id ≡ true → IsOpen cs id

  find-update_self :
      (f : Channel A → Channel A) (keeps : (c : Channel A) → (f c).id ≡ c.id)
      (cs : List (Channel A)) (id : ℕ) (c : Channel A)
      → find_channel cs id ≡ some c
      → find_channel (update_channel f cs id) id ≡ some (f c)
  unfolding find_channel update_channel
  find-update_self f keeps [] id c h = cc
  find-update_self f keeps (x ∷ xs) id c h =
      ground (arith, keeps x, find-update_self f keeps xs id c)

  find-update_ne :
      (f : Channel A → Channel A) (keeps : (c : Channel A) → (f c).id ≡ c.id)
      (cs : List (Channel A)) (id other : ℕ)
      → id ≢ other
      → find_channel (update_channel f cs id) other ≡ find_channel cs other
  unfolding find_channel update_channel
  find-update_ne f keeps [] id other ne = refl
  find-update_ne f keeps (x ∷ xs) id other ne =
      ground (arith, keeps x, find-update_ne f keeps xs id other ne)

  enqueue-keeps :
      (capacity : ℕ) (e : Item A) (c : Channel A)
      → ((enqueue capacity e c).id ≡ c.id) × ((enqueue capacity e c).is_open ≡ c.is_open)
  unfolding enqueue
  enqueue-keeps capacity e c = ground arith

  -- What was open, or closed, is so after an item was put on one of the channels.
  enqueue_state :
      (capacity : ℕ) (e : Item A) (cs : List (Channel A)) (id other : ℕ) (b : Bool)
      → ((c : Channel A) × (find_channel cs other ≡ some c) × (c.is_open ≡ b))
      → (c : Channel A) × (find_channel (update_channel (enqueue capacity e) cs id) other ≡ some c)
        × (c.is_open ≡ b)
  enqueue_state capacity e cs id other b (c, found, state) = elim (Bool-cases (id == other)) [
    | inl same ↦
        let eq : id ≡ other = ground arith in
        (
          enqueue capacity e c,
          rw eq (
              find-update_self (enqueue capacity e) (λ x. (enqueue-keeps capacity e x).0) cs other c
                found),
          (enqueue-keeps capacity e c).1 ∙ state,
        )
    | inr differ ↦
        let ne : id ≢ other = ground arith in
        (
          c,
          find-update_ne (enqueue capacity e) (λ x. (enqueue-keeps capacity e x).0) cs id other ne
              ∙ found,
          state,
        )
  ]

  -- When all the channels are open, none of the sends panics, and what was open stays open.
  pub send_all-Live :
      (capacity : ℕ) (e : Item A) (ids all : List ℕ) (cs : List (Channel A))
      → Live ids cs
      → Live all cs
      → (cs' : List (Channel A)) × (send_all capacity e cs ids ≡ some cs') × Live all cs'
  unfolding send_all send send_open has_id
  send_all-Live capacity e [] all cs live others = (cs, refl, others)
  send_all-Live capacity e (id ∷ ids) all cs live others =
      let (c, found, on) = live id (ground arith) in
      let (cs', sent, kept) =
        send_all-Live capacity e ids all (update_channel (enqueue capacity e) cs id)
          (λ other h. enqueue_state capacity e cs id other true (live other (ground arith)))
          (λ other h. enqueue_state capacity e cs id other true (others other h)) in
      (cs', ground arith, kept)

  -- A send to a closed channel panics, whatever is sent before it.
  pub send_all-closed :
      (capacity : ℕ) (e : Item A) (ids : List ℕ) (cs : List (Channel A)) (id : ℕ)
      → has_id ids id ≡ true
      → IsClosed cs id
      → send_all capacity e cs ids ≡ none
  unfolding send_all send send_open has_id
  send_all-closed capacity e [] cs id h off = cc
  send_all-closed capacity e (x ∷ xs) cs id h off = elim (Bool-cases (x == id)) [
    | inl same ↦ let (c, found, closed) = off in let eq : x ≡ id = ground arith in ground arith
    | inr differ ↦ elim (Option-cases (find_channel cs x)) [
      | inl missing ↦ ground arith
      | inr (c, found) ↦ ground (
        arith,
        send_all-closed capacity e xs (update_channel (enqueue capacity e) cs x) id,
        enqueue_state capacity e cs x id false off,
      )
    ]
  ]

  -- A subscription that ends closes its own channel alone.
  pub cancel-Live :
      (ids : List ℕ) (cs : List (Channel A)) (id : ℕ)
      → Live ids cs
      → Live (remove_id ids id) (update_channel close_channel cs id)
  unfolding close_channel
  cancel-Live ids cs id live other h =
      let (ne, had) = has_id-remove ids id other h in
      let (c, found, on) = live other had in
      (c, find-update_ne close_channel (λ _. refl) cs id other ne ∙ found, on)

  pub close-IsClosed :
      (cs : List (Channel A)) (id : ℕ)
      → IsOpen cs id
      → IsClosed (update_channel close_channel cs id) id
  unfolding close_channel
  close-IsClosed cs id (c, found, on) =
      (close_channel c, find-update_self close_channel (λ _. refl) cs id c found, refl)

  pub subscribe-Live :
      (ids : List ℕ) (cs : List (Channel A)) (id : ℕ)
      → Live ids cs
      → Live (id ∷ ids) (record { id = id; queue = []; is_open = true } ∷ cs)
  unfolding has_id find_channel
  subscribe-Live ids cs id live other h = elim (Bool-cases (id == other)) [
    | inl same ↦ (record { id = id; queue = []; is_open = true }, ground arith, refl)
    | inr differ ↦ let (c, found, on) = live other (ground arith) in (c, ground arith, on)
  ]
