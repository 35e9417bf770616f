-- ===== src/Evolution/Client/Submitter/Draining.antt =====
-- pkg/reef/evolution/client/submitter.go: what becomes of the queued genes when the client connects again.
use reef.Prelude.{
  ℕ, zero, suc, ◌+◌, ◌≤◌, ◌<◌, ◌≡◌, refl, ◌∙◌, ◌⊎◌, inl, inr, Bool, true, false, List, [], ◌∷◌,
  ◌++◌, append_assoc, append-nil, none, some, arith, length, length-append, leb, ltb, if◌then◌else◌,
  Bool-cases, if_either,
}
use reef.Raft.Fsm.{Gene}
use reef.Evolution.Client.Submitter.{
  GeneSubmitter, Tried, pushed, enqueue, submitted_at, try_from, submit_with_retry, drain_from,
  drain_queue, on_reconnect,
}

-- Each gene of the first list is in one of the others, in its order: it got through, or it is left.
abbrev pub Split : List Gene → List Gene → List Gene → Type 0
Split [] sent left = (sent ≡ []) × (left ≡ [])
Split (g ∷ gs) sent left =
    ((now : ℕ) × (sent' : List Gene) × (sent ≡ submitted_at now g ∷ sent') × Split gs sent' left)
    ⊎ ((left' : List Gene) × (left ≡ g ∷ left') × Split gs sent left')

enqueue_lem :
    (g : Gene) (s : GeneSubmitter)
    → length s.offline_queue < s.max_queue_size
    → enqueue g s ≡ record s { offline_queue = s.offline_queue ++ g ∷ [] }
unfolding enqueue pushed
enqueue_lem g s h =
    let room : leb s.max_queue_size (length s.offline_queue) ≡ false = ground (arith, h) in
    rw room refl

module _ (written : ℕ → Bool) where
  -- There is a wait for each of the first three attempts.
  try_from_returns :
      (rounds attempt n : ℕ)
      → attempt + rounds ≤ 4
      → (tried : Tried) × (try_from written rounds attempt n ≡ some tried)
  unfolding try_from
  try_from_returns zero attempt n h = (_, refl)
  try_from_returns (suc zero) attempt n h = elim (Bool-cases (written n)) [
    | inl w ↦ (record { accepted = true; writes = n + 1 }, rw w refl)
    | inr w ↦ (record { accepted = false; writes = n + 1 }, rw w refl)
  ]
  try_from_returns (suc (suc rounds)) attempt n h =
      let (tried, e) = try_from_returns (suc rounds) (attempt + 1) (n + 1) (omega arith) in
      let waits : ltb attempt 3 ≡ true = ground arith in
      elim (Bool-cases (written n)) [
        | inl w ↦ (record { accepted = true; writes = n + 1 }, rw w refl)
        | inr w ↦ (tried, ground (arith, w, waits, e))
      ]

  try_panics :
      (retries : ℕ)
      → 4 ≤ retries
      → ((n : ℕ) → n < 4 → written n ≡ false)
      → try_from written (retries + 1) 0 0 ≡ none
  unfolding try_from
  try_panics (suc (suc (suc (suc k)))) h w =
      ground (arith, w 0 (omega arith), w 1 (omega arith), w 2 (omega arith), w 3 (omega arith))
  try_panics (suc (suc (suc zero))) h w = absurd (omega arith)
  try_panics (suc (suc zero)) h w = absurd (omega arith)
  try_panics (suc zero) h w = absurd (omega arith)
  try_panics zero h w = absurd (omega arith)

  submit_returns :
      (s : GeneSubmitter) (n : ℕ)
      → s.max_retries ≤ 3
      → (tried : Tried) × (submit_with_retry written s n ≡ some tried)
  unfolding submit_with_retry
  submit_returns s n r =
      let (tried, e) = try_from_returns (s.max_retries + 1) 0 n (omega arith) in
      elim (Bool-cases s.connected) [
        | inl c ↦ (tried, rw (c, submit_with_retry) e)
        | inr c ↦ (record { accepted = false; writes = n }, rw (c, submit_with_retry) refl)
      ]

  module _ (clock : ℕ → ℕ) where
    drain_sent :
        (g : Gene) (gs sent : List Gene) (n writes : ℕ) (s s' : GeneSubmitter)
        → submit_with_retry written s n ≡ some (record { accepted = true; writes = writes })
        → drain_from written clock gs writes s ≡ some (s', sent)
        → drain_from written clock (g ∷ gs) n s ≡ some (s', submitted_at (clock writes) g ∷ sent)
    unfolding drain_from
    drain_sent g gs sent n writes s s' e d = rw (e, drain_from, d) refl

    drain_kept :
        (g : Gene) (gs sent : List Gene) (n writes : ℕ) (s s' : GeneSubmitter)
        → submit_with_retry written s n ≡ some (record { accepted = false; writes = writes })
        → drain_from written clock gs writes (enqueue g s) ≡ some (s', sent)
        → drain_from written clock (g ∷ gs) n s ≡ some (s', sent)
    unfolding drain_from
    drain_kept g gs sent n writes s s' e d = rw (e, drain_from, d) refl

    first_panics :
        (gs : List Gene) (s : GeneSubmitter)
        → 0 < length gs
        → s.connected ≡ true
        → try_from written (s.max_retries + 1) 0 0 ≡ none
        → drain_from written clock gs 0 s ≡ none
    unfolding drain_from submit_with_retry
    first_panics [] s q c e = absurd (omega arith)
    first_panics (g ∷ gs) s q c e =
        let opened : submit_with_retry written s 0 ≡ none = rw (c, submit_with_retry) e in
        rw (opened, drain_from) refl

    -- The drain of these genes returns, and splits them.
    abbrev Drains : List Gene → ℕ → GeneSubmitter → Type 0
    Drains gs n s =
        (s' : GeneSubmitter) × (sent left : List Gene) × (drain_from written clock gs n s
          ≡ some (s', sent))
        × (s'.offline_queue ≡ s.offline_queue ++ left)
        × Split gs sent left

    one_more :
        (accepted : Bool) (writes n : ℕ) (g : Gene) (gs : List Gene) (s : GeneSubmitter)
        → submit_with_retry written s n ≡ some (record { accepted = accepted; writes = writes })
        → length s.offline_queue < s.max_queue_size
        → Drains gs writes
            (if accepted then s else record s { offline_queue = s.offline_queue ++ g ∷ [] })
        → Drains (g ∷ gs) n s
    one_more true writes n g gs s e h (s', sent, left, d, q, p) = (
      s',
      submitted_at (clock writes) g ∷ sent,
      left,
      drain_sent g gs sent n writes s s' e d,
      q,
      inl (clock writes, sent, refl, p),
    )
    one_more false writes n g gs s e h (s', sent, left, d, q, p) = (
      s',
      sent,
      g ∷ left,
      drain_kept g gs sent n writes s s' e (rw (enqueue_lem g s h) d),
      q ∙ append_assoc s.offline_queue (g ∷ []) left,
      inr (left, refl, p),
    )

    drain_from-Split :
        (gs : List Gene) (n : ℕ) (s : GeneSubmitter)
        → s.max_retries ≤ 3
        → length s.offline_queue + length gs ≤ s.max_queue_size
        → Drains gs n s
    unfolding drain_from
    drain_from-Split [] n s r h = (s, [], [], refl, rw append-nil refl, (refl, refl))
    drain_from-Split (g ∷ gs) n s r h =
        let (tried, e) = submit_returns s n r in
        let one : length (s.offline_queue ++ g ∷ []) ≡ length s.offline_queue + 1 =
          length-append s.offline_queue (g ∷ []) in
        let f = tried.writes in
        one_more tried.accepted f n g gs s e (omega (arith, h)) (
          if_either (Drains gs f) tried.accepted s
            (record s { offline_queue = s.offline_queue ++ g ∷ [] })
            (drain_from-Split gs f s r (omega (arith, h)))
            (drain_from-Split gs f (record s { offline_queue = s.offline_queue ++ g ∷ [] }) r
              (omega (arith, h, one))))

    -- When the client connects again and its queue is not above the limit, the drain ends without a panic if there
    -- are three retries at most: each queued gene got through, with the status of a submitted one, or is
    -- queued again, both in the order of the queue, and no gene is dropped.
    pub drain_queue-Split :
        (s : GeneSubmitter)
        → s.max_retries ≤ 3
        → length s.offline_queue ≤ s.max_queue_size
        → (s' : GeneSubmitter) × (sent : List Gene) × (on_reconnect written clock s
            ≡ some (s', sent))
          × Split s.offline_queue sent s'.offline_queue
    unfolding on_reconnect drain_queue
    drain_queue-Split s r h =
        let (s', sent, left, d, q, p) =
          drain_from-Split s.offline_queue 0 (record s { connected = true; offline_queue = [] }) r
            (omega (arith, h)) in
        (s', sent, d, rw q p)

    -- With four retries or more, the process panics when the client connects again with a gene in its queue and the
    -- first four writes fail: there are three waits only.
    pub drain_queue_panics :
        (s : GeneSubmitter)
        → 4 ≤ s.max_retries
        → 0 < length s.offline_queue
        → ((n : ℕ) → n < 4 → written n ≡ false)
        → on_reconnect written clock s ≡ none
    unfolding on_reconnect drain_queue
    drain_queue_panics s r q w =
        first_panics s.offline_queue (record s { connected = true; offline_queue = [] }) q refl
          (try_panics s.max_retries r w)
