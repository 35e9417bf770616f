-- ===== src/Evolution/Broadcaster/Reconnect.antt =====
-- pkg/reef/evolution/server/broadcaster.go: what is lost when a client connects again.
use reef.Prelude.{
  ◌≤◌, ◌≡◌, refl, ◌∙◌, sym, ap, subst, ◌⊎◌, inl, inr, Bool, true, false, List, [], ◌∷◌, ◌++◌,
  Option, none, some, String, str_eq, arith, length, Option-cases, lookup, insert, delete,
  lookup-insert, lookup-delete, eq_refl,
}
use reef.Raft.Fsm.{Gene}
use reef.Evolution.Broadcaster.{Broadcaster, get_pending_sync_ids, resync, on_client_reconnect}

-- The gene is not sent again, or it gets through.
abbrev pub Passes : (String → Option Gene) → (String → Bool) → String → Type 0
Passes get_gene reaches id =
    (get_gene id ≡ none)
    ⊎ ((g : Gene) × (get_gene id ≡ some g)
        × ((str_eq g.status "approved" ≡ false) ⊎ (reaches g.id ≡ true)))

abbrev pub AllPass : (String → Option Gene) → (String → Bool) → List String → Type 0
AllPass get_gene reaches [] = Unit
AllPass get_gene reaches (id ∷ ids) = Passes get_gene reaches id × AllPass get_gene reaches ids

pending-insert :
    (client : String) (ids : List String) (b : Broadcaster)
    → get_pending_sync_ids client (record b { pending_sync = insert client ids b.pending_sync })
      ≡ ids
unfolding get_pending_sync_ids
pending-insert client ids b =
    rw (lookup-insert client client ids b.pending_sync, eq_refl client, get_pending_sync_ids) refl

module _ (get_gene : String → Option Gene) (reaches : String → Bool) (client : String) where
  resync_stops :
      (before later : List String) (id : String) (g : Gene) (b : Broadcaster)
      → AllPass get_gene reaches before
      → get_gene id ≡ some g
      → str_eq g.status "approved" ≡ true
      → reaches g.id ≡ false
      → resync get_gene reaches client (before ++ id ∷ later) b ≡ (
        record b {
          pending_sync = insert client (get_pending_sync_ids client b ++ id ∷ []) b.pending_sync;
        },
        (resync get_gene reaches client before b).1,
      )
  unfolding resync
  resync_stops [] later id g b a e s r = ground (arith, e, s, r)
  resync_stops (x ∷ before) later id g b (inl n, a) e s r =
      ground (arith, n, resync_stops before later id g b a e s r)
  resync_stops (x ∷ before) later id g b (inr (h, f, inl n), a) e s r =
      ground (arith, f, n, resync_stops before later id g b a e s r)
  resync_stops (x ∷ before) later id g b (inr (h, f, inr n), a) e s r =
      ground (arith, f, n, resync_stops before later id g b a e s r)

  length-resync :
      (ids : List String) (b : Broadcaster)
      → length (resync get_gene reaches client ids b).1 ≤ length ids
  unfolding resync
  length-resync [] b = omega arith
  length-resync (id ∷ ids) b = elim (Option-cases (get_gene id)) [
    | inl e ↦ rw (e, resync) (omega (arith, length-resync ids b))
    | inr (g, e) ↦ ground (arith, e, length-resync ids b)
  ]

  -- When a client connects again and the send of an approved gene fails, that gene alone waits for the client
  -- afterwards. At most the genes before it were sent: those behind it are neither sent nor waiting any more.
  pub reconnect_loses :
      (before later : List String) (id : String) (g : Gene) (b : Broadcaster)
      → b.resync_on_reconnect ≡ true
      → get_pending_sync_ids client b ≡ before ++ id ∷ later
      → AllPass get_gene reaches before
      → get_gene id ≡ some g
      → str_eq g.status "approved" ≡ true
      → reaches g.id ≡ false
      → let (b', sent) = on_client_reconnect get_gene reaches client b in
        (get_pending_sync_ids client b' ≡ id ∷ []) × (length sent ≤ length before)
  unfolding on_client_reconnect get_pending_sync_ids
  reconnect_loses before later id g b on p a e s r =
      let b0 : Broadcaster = record b { pending_sync = delete client b.pending_sync } in
      let stopped = resync_stops before later id g b0 a e s r in
      let gone : lookup client (delete client b.pending_sync) ≡ none =
        lookup-delete client client b.pending_sync ∙ rw (eq_refl client) refl in
      let opened : on_client_reconnect get_gene reaches client b
          ≡ resync get_gene reaches client (before ++ id ∷ later) b0 =
        rw (on_client_reconnect, on) (rw p refl) in
      let empty : get_pending_sync_ids client b0 ≡ [] = rw (gone, get_pending_sync_ids) refl in
      let one : get_pending_sync_ids client b0 ++ id ∷ [] ≡ id ∷ [] =
        ap (λ ids. ids ++ id ∷ []) empty in
      (
        ap (λ r. get_pending_sync_ids client r.0) (opened ∙ stopped)
            ∙ (pending-insert client (get_pending_sync_ids client b0 ++ id ∷ []) b0 ∙ one),
        subst (λ n. n ≤ length before) (sym (ap (λ r. length r.1) (opened ∙ stopped)))
            (length-resync before b0),
      )
