-- ===== src/Agentapi/Hub/Replay.antt =====
-- What subscribers of the hub get, against the log of all activities (agentapi/hub.go).
use deadlocker.Base.{
  ℕ, ◌+◌, ◌-◌, ◌≤◌, ◌≡◌, inl, inr, refl, sym, ap, ◌∙◌, Option, none, some, List, [], ◌∷◌, ◌++◌,
  length, drop, ltb, length-append, arith, Bool-cases, append_assoc, append-nil,
}
use deadlocker.Feed.{Item, stamp, has_id}
use deadlocker.Feed.Retained.{
  bodies, bodies-append, bodies-drop, length-bodies, Retains, push-Retains, after_seq-Retains,
  empty-Retains,
}
use deadlocker.Feed.Delivery.{Live, send_all-Live, cancel-Live, subscribe-Live}
use deadlocker.Agentapi.Hub.{
  Hub, activity_history, new_hub, keep_last, begin_publish, deliver, publish, subscribe, cancel,
}

-- A call of the hub.
pub data HubCall {ℓ} (A : Type ℓ) : Type ℓ where
  publishes : ℕ → Item A → HubCall A
  subscribes : ℕ → HubCall A
  cancels : ℕ → HubCall A

module _ {ℓ} {A : Type ℓ} where
  abbrev pub call : Hub A → HubCall A → Option (Hub A)
  call h (publishes now a) = publish h now a
  call h (subscribes since) = some (subscribe h since).0
  call h (cancels id) = some (cancel h id)

  abbrev pub calls : Hub A → List (HubCall A) → Option (Hub A)
  calls h [] = some h
  calls h (c ∷ cs) = elim (call h c) [ none ↦ none | some h' ↦ calls h' cs ]

  abbrev pub published : List (HubCall A) → List A
  published [] = []
  published (publishes now a ∷ cs) = a.body ∷ published cs
  published (subscribes since ∷ cs) = published cs
  published (cancels id ∷ cs) = published cs

  abbrev Serves : List (Item A) → Hub A → Type ℓ
  Serves log h = Retains 500 500 log h.history h.seq × Live h.subs h.channels

  keep-Retains :
      (log history : List (Item A)) (seq : ℕ) (e : Item A)
      → Retains 500 500 log history seq
      → e.seq ≡ seq + 1
      → Retains 500 500 (log ++ (e ∷ [])) (keep_last (history ++ (e ∷ []))) (seq + 1)
  unfolding keep_last
  keep-Retains log history seq e v number =
      let total : length (history ++ (e ∷ [])) ≡ length history + 1 =
        length-append history (e ∷ []) in
      elim (Bool-cases (ltb activity_history (length (history ++ (e ∷ []))))) [
        | inl over ↦ rw over (
            push-Retains 500 500 (length (history ++ (e ∷ [])) - 500) log history seq e v number
              (ground arith) (ground arith) (inr (ground (arith, v.bounded))))
        | inr under ↦ rw under (
            push-Retains 500 500 0 log history seq e v number (omega arith)
              (ground (arith, v.bounded)) (inl refl))
      ]

  publish-Serves :
      (log : List (Item A)) (h : Hub A) (now : ℕ) (a : Item A)
      → Serves log h
      → (h' : Hub A) × (publish h now a ≡ some h')
        × Serves (log ++ (stamp (h.seq + 1) now a ∷ [])) h'
  unfolding publish begin_publish deliver stamp
  publish-Serves log h now a (kept, live) =
      let (cs, sent, still) =
        send_all-Live 128 (stamp (h.seq + 1) now a) h.subs h.subs h.channels live live in
      (
        record h {
          seq = h.seq + 1;
          history = keep_last (h.history ++ (stamp (h.seq + 1) now a ∷ []));
          channels = cs;
        },
        ground arith,
        (keep-Retains log h.history h.seq (stamp (h.seq + 1) now a) kept refl, still),
      )

  calls-Serves :
      (log : List (Item A)) (h : Hub A) (cs : List (HubCall A))
      → Serves log h
      → (h' : Hub A) × (log' : List (Item A)) × (calls h cs ≡ some h')
        × Serves log' h'
        × (bodies log' ≡ bodies log ++ published cs)
  unfolding subscribe cancel stamp
  calls-Serves log h [] v = (h, log, refl, v, sym (append-nil (bodies log)))
  calls-Serves log h (publishes now a ∷ cs) v =
      let (h1, first, v1) = publish-Serves log h now a v in
      let (h', log', run, v', same) =
        calls-Serves (log ++ (stamp (h.seq + 1) now a ∷ [])) h1 cs v1 in
      (
        h',
        log',
        ground arith,
        v',
        same
            ∙ ap (λ l. l ++ published cs) (bodies-append log (stamp (h.seq + 1) now a ∷ []))
            ∙ append_assoc (bodies log) (a.body ∷ []) (published cs),
      )
  calls-Serves log h (subscribes since ∷ cs) (kept, live) =
      calls-Serves log (subscribe h since).0 cs
        (kept, subscribe-Live h.subs h.channels h.next_sub live)
  calls-Serves log h (cancels id ∷ cs) (kept, live) = elim (Bool-cases (has_id h.subs id)) [
    | inl had ↦
        let (h', log', run, v', same) =
          calls-Serves log (cancel h id) cs
            (rw had (kept, cancel-Live h.subs h.channels id live)) in
        (h', log', run, v', same)
    | inr not_had ↦
        let (h', log', run, v', same) = calls-Serves log h cs (kept, live) in
        (h', log', ground arith, v', same)
  ]

  -- Whatever complete calls a new hub has seen, one after the other, none of them panicked; it
  -- numbered the activities that were published, and keeps at most 500 of them. A subscriber who has
  -- seen the first `since` of them, and is at most 500 behind, gets exactly the others as its
  -- backlog, in the order in which they were published.
  pub calls-Backlog :
      (cs : List (HubCall A)) (since : ℕ)
      → length (published cs) ≤ since + 500
      → (h : Hub A) × (calls new_hub cs ≡ some h)
        × (h.seq ≡ length (published cs))
        × (length h.history ≤ 500)
        × (bodies (subscribe h since).2 ≡ drop since (published cs))
  unfolding new_hub subscribe has_id
  calls-Backlog cs since near =
      let (h, log, run, (kept, live), same) =
        calls-Serves [] new_hub cs (empty-Retains 500 500, λ id was. absurd (ground arith)) in
      let number : h.seq ≡ length (published cs) =
        sym kept.length_log ∙ sym (length-bodies log) ∙ ap length same in
      (
        h,
        run,
        number,
        kept.bounded,
        ap bodies (after_seq-Retains 500 500 log h.history h.seq since kept (omega arith))
            ∙ bodies-drop since log
            ∙ ap (drop since) same,
      )
