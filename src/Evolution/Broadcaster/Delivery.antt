-- ===== src/Evolution/Broadcaster/Delivery.antt =====
-- pkg/reef/evolution/server/broadcaster.go: which clients a gene gets to, and what is lost.
use reef.Prelude.{
  ℕ, zero, suc, ◌≤◌, ◌<◌, ◌≡◌, refl, ◌∙◌, sym, subst, ◌⊎◌, inl, inr, Bool, true, false, List, [],
  ◌∷◌, String, str_eq, arith, length, has, In, if◌then◌else◌, Bool-cases,
}
use reef.Raft.Fsm.{Gene}
use reef.Evolution.Broadcaster.{
  RoleClient, Broadcaster, get_pending_sync_ids, record_offline, targets, record_all, send_all,
  broadcast,
}
use reef.Evolution.Broadcaster.Pending.{record-limit, record-has, record-has_self}

-- The gene waits for the client.
abbrev pub Waits : String → String → Broadcaster → Type 0
Waits client gene b = has gene (get_pending_sync_ids client b) ≡ true

module _ (gene : String) where
  record_all-limit :
      (cs : List String) (b : Broadcaster) → (record_all cs gene b).max_pending ≡ b.max_pending
  unfolding record_all
  record_all-limit [] b = refl
  record_all-limit (c ∷ cs) b =
      record_all-limit cs (record_offline c gene b) ∙ record-limit c gene b

  record_all-Waits :
      (client : String) (cs : List String) (b : Broadcaster)
      → 0 < b.max_pending
      → Waits client gene b ⊎ In client cs
      → Waits client gene (record_all cs gene b)
  unfolding record_all
  record_all-Waits client [] b p (inl w) = w
  record_all-Waits client [] b p (inr i) = absurd i
  record_all-Waits client (c ∷ cs) b p (inl w) =
      record_all-Waits client cs (record_offline c gene b) (rw (record-limit c gene b) p)
        (inl (record-has c client gene b p w))
  record_all-Waits client (c ∷ cs) b p (inr (inl e)) =
      record_all-Waits client cs (record_offline c gene b) (rw (record-limit c gene b) p)
        (inl (rw (← e) (record-has_self c gene b p)))
  record_all-Waits client (c ∷ cs) b p (inr (inr i)) =
      record_all-Waits client cs (record_offline c gene b) (rw (record-limit c gene b) p) (inr i)

  module _ (reaches : String → Bool) where
    after : String → Broadcaster → Broadcaster
    after c b = if reaches c then b else record_offline c gene b

    after-limit : (c : String) (b : Broadcaster) → (after c b).max_pending ≡ b.max_pending
    unfolding after
    after-limit c b = elim (Bool-cases (reaches c)) [
      | inl e ↦ rw e refl
      | inr e ↦ rw e (record-limit c gene b)
    ]

    after-Waits :
        (client c : String) (b : Broadcaster)
        → 0 < b.max_pending
        → Waits client gene b
        → Waits client gene (after c b)
    unfolding after
    after-Waits client c b p w = elim (Bool-cases (reaches c)) [
      | inl e ↦ rw e w
      | inr e ↦ rw e (record-has c client gene b p w)
    ]

    send_all-Waits :
        (client : String) (n : ℕ) (cs : List String) (b : Broadcaster)
        → 0 < b.max_pending
        → Waits client gene b
        → Waits client gene (send_all reaches gene n cs b).0
    unfolding send_all after
    send_all-Waits client zero cs b p w = w
    send_all-Waits client (suc n) [] b p w = w
    send_all-Waits client (suc n) (c ∷ cs) b p w =
        send_all-Waits client n cs (after c b) (rw (after-limit c b) p) (after-Waits client c b p w)

    -- Every target that a send is started for is reached, or the gene waits for it.
    send_all-reaches :
        (client : String) (n : ℕ) (cs : List String) (b : Broadcaster)
        → 0 < b.max_pending
        → length cs ≤ n
        → In client cs
        → In client (send_all reaches gene n cs b).1
          ⊎ Waits client gene (send_all reaches gene n cs b).0
    unfolding send_all after
    send_all-reaches client n [] b p l i = absurd i
    send_all-reaches client zero (c ∷ cs) b p l i = absurd (omega arith)
    send_all-reaches client (suc n) (c ∷ cs) b p l (inl e) = elim (Bool-cases (reaches c)) [
      | inl r ↦ rw r (inl (inl e))
      | inr r ↦ rw r (
          inr (
            send_all-Waits client n cs (record_offline c gene b) (rw (record-limit c gene b) p)
              (rw (← e) (record-has_self c gene b p))))
    ]
    send_all-reaches client (suc n) (c ∷ cs) b p l (inr i) =
        elim (send_all-reaches client n cs (after c b) (rw (after-limit c b) p) (omega arith) i) [
          | inl s ↦ inl (kept _ (reaches c) s)
          | inr w ↦ inr w
        ]
      where
        kept :
            (sent : List String) (r : Bool)
            → In client sent
            → In client (if r then c ∷ sent else sent)
        kept sent true i = inr i
        kept sent false i = i

targets_own :
    (source : String) (c : RoleClient) (cs : List RoleClient)
    → str_eq c.id source ≡ false
    → In c.id (targets c.is_online source (c ∷ cs))
unfolding targets
targets_own source c cs n = elim (Bool-cases c.is_online) [
  | inl o ↦ rw (n, o) (inl refl)
  | inr o ↦ rw (n, o) (inl refl)
]

targets_later :
    (online : Bool) (source id : String) (d : RoleClient) (cs : List RoleClient)
    → In id (targets online source cs)
    → In id (targets online source (d ∷ cs))
unfolding targets
targets_later online source id d cs i = pick (str_eq d.id source) d.is_online online
  where
    pick :
        (same up online' : Bool)
        → In id (
            if same
            then targets online source cs
            else if up
            then (if online' then d.id ∷ targets online source cs else targets online source cs)
            else if online'
            then targets online source cs
            else d.id ∷ targets online source cs)
    pick true up o = i
    pick false true true = inr i
    pick false true false = i
    pick false false true = i
    pick false false false = inr i

targets-In :
    (source : String) (c : RoleClient) (cs : List RoleClient)
    → str_eq c.id source ≡ false
    → In c cs
    → In c.id (targets c.is_online source cs)
targets-In source c [] n i = absurd i
targets-In source c (d ∷ cs) n (inl e) =
    subst (λ d. In c.id (targets c.is_online source (d ∷ cs))) (sym e) (targets_own source c cs n)
targets-In source c (d ∷ cs) n (inr i) =
    targets_later c.is_online source c.id d cs (targets-In source c cs n i)

-- When a gene with a role is broadcast, at least one gene may wait for a client, and the context is not
-- cancelled, then for each client of the role but the source: the gene got to it, or is among its
-- pending genes when the broadcast ends.
pub broadcast_reaches :
    (clients : List RoleClient) (reaches : String → Bool) (started : ℕ) (g : Gene) (source : String)
    (b : Broadcaster) (c : RoleClient)
    → str_eq g.role "" ≡ false
    → 0 < b.max_pending
    → length (targets true source clients) ≤ started
    → In c clients
    → str_eq c.id source ≡ false
    → let (b', sent, fine) = broadcast clients reaches started g source b in
      (fine ≡ true) × (In c.id sent ⊎ Waits c.id g.id b')
unfolding broadcast
broadcast_reaches clients reaches started g source b c r p l i n =
    let b' = record_all (targets false source clients) g.id b in
    let room : 0 < b'.max_pending = rw (record_all-limit g.id (targets false source clients) b) p in
    rw r (refl, of_state c.is_online refl room)
  where
    of_state :
        (online : Bool)
        → c.is_online ≡ online
        → 0 < (record_all (targets false source clients) g.id b).max_pending
        → In c.id
            (send_all reaches g.id started
              (targets true source clients)
              (record_all (targets false source clients) g.id b)).1
          ⊎ Waits c.id g.id
              (send_all reaches g.id started
                (targets true source clients)
                (record_all (targets false source clients) g.id b)).0
    of_state true o room =
        send_all-reaches g.id reaches c.id started (targets true source clients) _ room l
          (subst (λ o. In c.id (targets o source clients)) o (targets-In source c clients n i))
    of_state false o room = inr (
        send_all-Waits g.id reaches c.id started (targets true source clients) _ room (
          record_all-Waits g.id c.id (targets false source clients) b p (
            inr (
              subst (λ o. In c.id (targets o source clients)) o
                (targets-In source c clients n i)))))
