-- ===== src/Engine/Bus/Replay.antt =====
-- Readers of the bus, the log of all published events, and cancelled subscriptions (engine/bus.go).
use deadlocker.Base.{
  ℕ, ◌+◌, ◌≤◌, ◌≡◌, inl, inr, refl, sym, ap, ◌∙◌, Bool, true, false, Option, none, some, List, [],
  ◌∷◌, ◌++◌, length, drop, ltb, length-append, arith, Bool-cases, append_assoc, append-nil,
}
use deadlocker.Feed.{Item, stamp, has_id, send_all, update_channel, close_channel}
use deadlocker.Feed.Retained.{
  bodies, bodies-append, bodies-drop, length-bodies, Retains, push-Retains, after_seq-Retains,
  empty-Retains,
}
use deadlocker.Feed.Delivery.{
  Live, IsOpen, send_all-Live, send_all-closed, cancel-Live, close-IsClosed, subscribe-Live,
}
use deadlocker.Engine.Bus.{
  Bus, history_limit, new_bus, trim_history, begin_publish, deliver, publish, history_after,
  subscribe, cancel, close,
}

-- A call of the bus.
pub data BusCall {ℓ} (A : Type ℓ) : Type ℓ where
  publishes : ℕ → Item A → BusCall A
  subscribes : ℕ → BusCall A
  cancels : ℕ → BusCall A
  closes : BusCall A

module _ {ℓ} {A : Type ℓ} where
  abbrev pub call : Bus A → BusCall A → Option (Bus A)
  call b (publishes now e) = publish b now e
  call b (subscribes since) = some (subscribe b since).0
  call b (cancels id) = some (cancel b id)
  call b closes = some (close b)

  -- The calls one after the other; `none` is a panic.
  abbrev pub calls : Bus A → List (BusCall A) → Option (Bus A)
  calls b [] = some b
  calls b (c ∷ cs) = elim (call b c) [ none ↦ none | some b' ↦ calls b' cs ]

  -- What is published before the bus is closed.
  abbrev pub accepted : Bool → List (BusCall A) → List A
  accepted true cs = []
  accepted false [] = []
  accepted false (publishes now e ∷ cs) = e.body ∷ accepted false cs
  accepted false (subscribes since ∷ cs) = accepted false cs
  accepted false (cancels id ∷ cs) = accepted false cs
  accepted false (closes ∷ cs) = []

  -- The bus keeps a recent part of the log, and its subscribers' channels are open.
  abbrev pub Serves : List (Item A) → Bus A → Type ℓ
  Serves log b = Retains 20000 15001 log b.history b.seq × Live b.subs b.channels

  trim-Retains :
      (log history : List (Item A)) (seq : ℕ) (e : Item A)
      → Retains 20000 15001 log history seq
      → e.seq ≡ seq + 1
      → Retains 20000 15001 (log ++ (e ∷ [])) (trim_history (history ++ (e ∷ []))) (seq + 1)
  unfolding trim_history
  trim-Retains log history seq e v number =
      elim (Bool-cases (ltb history_limit (length (history ++ (e ∷ []))))) [
        | inl over ↦
            let total : length (history ++ (e ∷ [])) ≡ length history + 1 =
              length-append history (e ∷ []) in
            rw over (
              push-Retains 20000 15001 5000 log history seq e v number (ground (arith, v.bounded))
                (ground (arith, v.bounded)) (inr (ground (arith, v.bounded))))
        | inr under ↦
            let total : length (history ++ (e ∷ [])) ≡ length history + 1 =
              length-append history (e ∷ []) in
            rw under (
              push-Retains 20000 15001 0 log history seq e v number (omega arith)
                (ground (arith, v.bounded)) (inl refl))
      ]

  publish-Serves :
      (log : List (Item A)) (b : Bus A) (now : ℕ) (e : Item A)
      → Serves log b
      → b.closed ≡ false
      → (b' : Bus A) × (publish b now e ≡ some b')
        × Serves (log ++ (stamp (b.seq + 1) now e ∷ [])) b'
        × (b'.closed ≡ false)
  unfolding publish begin_publish deliver stamp
  publish-Serves log b now e (kept, live) on =
      let (cs, sent, still) =
        send_all-Live 512 (stamp (b.seq + 1) now e) b.subs b.subs b.channels live live in
      (
        record b {
          seq = b.seq + 1;
          history = trim_history (b.history ++ (stamp (b.seq + 1) now e ∷ []));
          channels = cs;
        },
        ground arith,
        (trim-Retains log b.history b.seq (stamp (b.seq + 1) now e) kept refl, still),
        on,
      )

  -- Closed, it takes nothing more.
  closed-calls :
      (log : List (Item A)) (b : Bus A) (cs : List (BusCall A))
      → Serves log b
      → b.closed ≡ true
      → (b' : Bus A) × (calls b cs ≡ some b') × Serves log b'
  unfolding publish begin_publish subscribe cancel close
  closed-calls log b [] v off = (b, refl, v)
  closed-calls log b (publishes now e ∷ cs) v off =
      let (b', run, v') = closed-calls log b cs v off in (b', ground arith, v')
  closed-calls log b (subscribes since ∷ cs) v off =
      let (b', run, v') = closed-calls log b cs v off in (b', ground arith, v')
  closed-calls log b (cancels id ∷ cs) (kept, live) off = elim (Bool-cases (has_id b.subs id)) [
    | inl had ↦
        let (b', run, v') =
          closed-calls log (cancel b id) cs (rw had (kept, cancel-Live b.subs b.channels id live))
            (ground arith) in
        (b', run, v')
    | inr not_had ↦
        let (b', run, v') = closed-calls log b cs (kept, live) off in (b', ground arith, v')
  ]
  closed-calls log b (closes ∷ cs) v off =
      let (b', run, v') = closed-calls log b cs v off in (b', ground arith, v')

  -- The log that the calls leave has what it had and what was accepted.
  abbrev Served : List (Item A) → Bus A → List (BusCall A) → Type ℓ
  Served log b cs =
      (b' : Bus A) × (log' : List (Item A)) × (calls b cs ≡ some b')
      × Serves log' b'
      × (bodies log' ≡ bodies log ++ accepted false cs)

  open_calls :
      (log : List (Item A)) (b : Bus A) (cs : List (BusCall A))
      → Serves log b
      → b.closed ≡ false
      → Served log b cs
  unfolding subscribe cancel close has_id stamp
  open_calls log b [] v on = (b, log, refl, v, sym (append-nil (bodies log)))
  open_calls log b (publishes now e ∷ cs) v on =
      let (b1, first, v1, on1) = publish-Serves log b now e v on in
      let (b', log', run, v', same) =
        open_calls (log ++ (stamp (b.seq + 1) now e ∷ [])) b1 cs v1 on1 in
      (
        b',
        log',
        ground arith,
        v',
        same
            ∙ ap (λ h. h ++ accepted false cs) (bodies-append log (stamp (b.seq + 1) now e ∷ []))
            ∙ append_assoc (bodies log) (e.body ∷ []) (accepted false cs),
      )
  open_calls log b (subscribes since ∷ cs) (kept, live) on =
      let (b', log', run, v', same) =
        open_calls log (subscribe b since).0 cs
          (rw on (kept, subscribe-Live b.subs b.channels b.next_sub live)) (rw on) in
      (b', log', run, v', same)
  open_calls log b (cancels id ∷ cs) (kept, live) on = elim (Bool-cases (has_id b.subs id)) [
    | inl had ↦
        let (b', log', run, v', same) =
          open_calls log (cancel b id) cs (rw had (kept, cancel-Live b.subs b.channels id live))
            (ground arith) in
        (b', log', run, v', same)
    | inr not_had ↦
        let (b', log', run, v', same) = open_calls log b cs (kept, live) on in
        (b', log', ground arith, v', same)
  ]
  open_calls log b (closes ∷ cs) (kept, live) on =
      let (b', run, v') =
        closed-calls log (close b) cs (rw on (kept, λ id h. absurd (ground arith)))
          (ground arith) in
      (b', log, run, v', sym (append-nil (bodies log)))

  -- Whatever complete calls a new bus has seen, one after the other, none of them panicked; it
  -- numbered the events that were published before it was closed, and keeps at most 20000 of them. A
  -- reader who has seen the first `since` of them, and is at most 15001 behind, is replayed exactly
  -- the others, in the order in which they were published.
  pub calls-Replay :
      (cs : List (BusCall A)) (since : ℕ)
      → length (accepted false cs) ≤ since + 15001
      → (b : Bus A) × (calls new_bus cs ≡ some b)
        × (b.seq ≡ length (accepted false cs))
        × (length b.history ≤ 20000)
        × (bodies (history_after b since) ≡ drop since (accepted false cs))
  unfolding new_bus history_after has_id
  calls-Replay cs since near =
      let (b, log, run, (kept, live), same) =
        open_calls [] new_bus cs (empty-Retains 20000 15001, λ id h. absurd (ground arith)) refl in
      let number : b.seq ≡ length (accepted false cs) =
        sym kept.length_log ∙ sym (length-bodies log) ∙ ap length same in
      (
        b,
        run,
        number,
        kept.bounded,
        ap bodies (after_seq-Retains 20000 15001 log b.history b.seq since kept (omega arith))
            ∙ bodies-drop since log
            ∙ ap (drop since) same,
      )

  -- For a bus whose subscribers' channels are open, and a subscriber that `Publish` found: when
  -- the subscription is cancelled after `Publish` let the lock go and before it sends, `Publish`
  -- panics.
  pub cancel-deliver_panics :
      (b b' : Bus A) (now id : ℕ) (e e' : Item A) (ids : List ℕ)
      → Live b.subs b.channels
      → begin_publish b now e ≡ some (b', e', ids)
      → has_id ids id ≡ true
      → deliver (cancel b' id) e' ids ≡ none
  unfolding begin_publish deliver cancel
  cancel-deliver_panics b b' now id e e' ids live h had =
      let subs : ids ≡ b'.subs = ground arith in
      let same : b'.subs ≡ b.subs = ground arith in
      let chans : b'.channels ≡ b.channels = ground arith in
      let was : IsOpen b'.channels id = rw chans (live id (rw (← same, ← subs) had)) in
      let there : has_id b'.subs id ≡ true = rw (← subs) had in
      let panics : send_all 512 e' (update_channel close_channel b'.channels id) ids ≡ none =
        send_all-closed 512 e' ids (update_channel close_channel b'.channels id) id had
          (close-IsClosed b'.channels id was) in
      ground arith
