-- ===== src/Evolution/Hub/Safety.antt =====
-- pkg/reef/evolution/server/hub.go: which genes the store holds as approved.
use reef.Prelude.{
  ℕ, ◌≡◌, refl, sym, subst, ◌⊎◌, inl, inr, Bool, true, List, [], ◌∷◌, Option, none, some, String,
  str_eq, ◌+◌, arith, In, Bool-cases, Option-cases,
}
use reef.Prelude.Int.{ℤ}
use reef.Raft.Fsm.{Gene}
use reef.Evolution.{validate}
use reef.Evolution.Store.{GeneStore, GeneLaws}
use reef.Evolution.Hub.{
  GateResult, EvolutionHub, with_source, approved_at, rejected_at, broadcast, announce, approve,
  reject, settle, tell_rejected, handle_gene, handle_gene_submission, handle_gene_rejected,
}

-- The calls that reach a hub, each at its time
pub data HubCall : Type 0 where
  submission : ℕ → String → String → HubCall
  rejection : ℕ → String → String → ℤ → HubCall

module _ {S : Type 0} (ops : GeneStore S) (show_errors : List String → String)
    (sends : String → Bool) (gatekeeper : Option (S → Gene → Option GateResult))
    (send : Option (Gene → String → Bool)) (decode_payload : String → Option String)
    (decode_gene : String → Option Gene) where
  abbrev pub call : HubCall → EvolutionHub S → EvolutionHub S
  call (submission now content client) h =
      (handle_gene_submission ops show_errors sends now gatekeeper send decode_payload decode_gene
        content client h).0
  call (rejection now id reason layer) h =
      (handle_gene_rejected ops show_errors sends now id reason layer h).0

  unfoldable pub calls : List HubCall → EvolutionHub S → EvolutionHub S
  calls [] h = h
  calls (c ∷ cs) h = calls cs (call c h)

List-cases {ℓ} : {A : Type ℓ} (xs : List A) → (xs ≡ []) ⊎ ((y : A) × (ys : List A) × (xs ≡ y ∷ ys))
List-cases [] = inl refl
List-cases (y ∷ ys) = inr (y, ys, refl)

module _ {S : Type 0} (ops : GeneStore S) (laws : GeneLaws ops)
    (review : S → Gene → Option GateResult) where
  -- The row is a gene that the gatekeeper passed, as it was approved.
  abbrev pub Reviewed : Gene → Type 0
  Reviewed x =
      (s : S) × (g : Gene) × (r : GateResult) × (now : ℕ) × (review s g ≡ some r)
      × (r.passed ≡ true)
      × (x ≡ laws.kept (approved_at now g))

  abbrev pub Fine : Gene → Type 0
  Fine x = str_eq x.status "approved" ≡ true → Reviewed x

  -- Every gene that the store holds as approved was passed.
  abbrev pub AllReviewed : S → Type 0
  AllReviewed s = (x : Gene) → In x (laws.rows s) → Fine x

  insert-Fine :
      (g : Gene) (s : S) → AllReviewed s → Fine (laws.kept g) → AllReviewed (ops.insert_gene g s).0
  insert-Fine g s h f x i = elim (laws.insert_rows g x s i) [
    | inl e ↦ subst Fine (sym e) f
    | inr j ↦ h x j
  ]

  update-Fine :
      (g : Gene) (s : S) → AllReviewed s → Fine (laws.kept g) → AllReviewed (ops.update_gene g s).0
  update-Fine g s h f x i = elim (laws.update_rows g x s i) [
    | inl e ↦ subst Fine (sym e) f
    | inr j ↦ h x j
  ]

  rejected-Fine : (now : ℕ) (g : Gene) → Fine (laws.kept (rejected_at now g))
  rejected-Fine now g e = absurd (ground (arith, rw (laws.kept_status (rejected_at now g)) at e))

  module _ (show_errors : List String → String) (sends : String → Bool) where
    announce-store :
        (send : Option (Gene → String → Bool)) (client : String) (g : Gene) (h : EvolutionHub S)
        → (announce ops show_errors sends send client g h).store ≡ h.store
    unfolding announce broadcast
    announce-store none client g h = ground arith
    announce-store (some f) client g h = ground arith

    module _ (now : ℕ) (send : Option (Gene → String → Bool)) (client : String) where
      approve-AllReviewed :
          (g : Gene) (h : EvolutionHub S)
          → AllReviewed h.store
          → Fine (laws.kept g)
          → AllReviewed (approve ops show_errors sends now send client g h).0.store
      unfolding approve
      approve-AllReviewed g h a f = elim (Option-cases (ops.get_gene g.id h.store)) [
        | inl e ↦ rw (e, approve) a
        | inr (none, e) ↦ elim (Bool-cases (ops.insert_gene g h.store).1) [
          | inl i ↦ rw (e, approve, i, announce-store) (insert-Fine g h.store a f)
          | inr i ↦ rw (e, approve, i) (insert-Fine g h.store a f)
        ]
        | inr (some x, e) ↦ elim (Bool-cases (ops.update_gene g h.store).1) [
          | inl i ↦ rw (e, approve, i, announce-store) (update-Fine g h.store a f)
          | inr i ↦ rw (e, approve, i) (update-Fine g h.store a f)
        ]
      ]

      settle-AllReviewed :
          (g : Gene) (v : Option GateResult) (h : EvolutionHub S)
          → (s : S) → review s g ≡ v
          → AllReviewed h.store
          → AllReviewed (settle ops show_errors sends now send client g v h).0.store
      unfolding settle reject tell_rejected
      settle-AllReviewed g none h s e a = a
      settle-AllReviewed g (some r) h s e a = elim (Bool-cases r.passed) [
        | inl p ↦
            rw (settle, p)
              (approve-AllReviewed (approved_at now g) h a (λ x. (s, g, r, now, e, p, refl)))
        | inr p ↦ rw (settle, p) (insert-Fine (rejected_at now g) h.store a (rejected-Fine now g))
      ]

      handle_gene-AllReviewed :
          (g : Gene) (h : EvolutionHub S)
          → AllReviewed h.store
          → AllReviewed (handle_gene ops show_errors sends now review send client g h).0.store
      unfolding handle_gene tell_rejected
      handle_gene-AllReviewed g h a = elim (List-cases (validate g)) [
        | inl e ↦
            rw (e, handle_gene)
              (settle-AllReviewed (with_source client g) (review h.store (with_source client g))
                (record h {
                  stats = record h.stats { total_submitted = h.stats.total_submitted + 1 };
                })
                h.store refl a)
        | inr (x, xs, e) ↦ rw (e, handle_gene) a
      ]

    rejection-AllReviewed :
        (now : ℕ) (id reason : String) (layer : ℤ) (h : EvolutionHub S)
        → AllReviewed h.store
        → AllReviewed (handle_gene_rejected ops show_errors sends now id reason layer h).0.store
    unfolding handle_gene_rejected tell_rejected
    rejection-AllReviewed now id reason layer h a = elim (Bool-cases h.enabled) [
      | inr off ↦ rw (off, handle_gene_rejected) a
      | inl on ↦ elim (Option-cases (ops.get_gene id h.store)) [
        | inl e ↦ rw (on, handle_gene_rejected, e) a
        | inr (none, e) ↦ rw (on, handle_gene_rejected, e) a
        | inr (some g, e) ↦ elim (Bool-cases (ops.update_gene (rejected_at now g) h.store).1) [
          | inl i ↦
              rw (on, handle_gene_rejected, e, i)
                (update-Fine (rejected_at now g) h.store a (rejected-Fine now g))
          | inr i ↦
              rw (on, handle_gene_rejected, e, i)
                (update-Fine (rejected_at now g) h.store a (rejected-Fine now g))
        ]
      ]
    ]

    submission-AllReviewed :
        (now : ℕ) (send : Option (Gene → String → Bool)) (decode_payload : String → Option String)
        (decode_gene : String → Option Gene) (content client : String) (h : EvolutionHub S)
        → AllReviewed h.store
        → AllReviewed
            (handle_gene_submission ops show_errors sends now
              (some review)
              send
              decode_payload
              decode_gene
              content
              client
              h).0.store
    unfolding handle_gene_submission
    submission-AllReviewed now send decode_payload decode_gene content client h a =
        elim (Bool-cases h.enabled) [
          | inr off ↦ rw (off, handle_gene_submission) a
          | inl on ↦ elim (Option-cases (decode_payload content)) [
            | inl e ↦ rw (on, handle_gene_submission, e) a
            | inr (text, e) ↦ elim (Option-cases (decode_gene text)) [
              | inl f ↦ rw (on, handle_gene_submission, e, f) a
              | inr (g, f) ↦
                  rw (on, handle_gene_submission, e, f)
                    (handle_gene-AllReviewed now send client g h a)
            ]
          ]
        ]

    -- Whatever clients submit and administrators reject, in whatever order: if every gene that the store holds
    -- as approved was passed by the gatekeeper and is kept as it was approved, this is so afterwards. A status
    -- that a client writes into its gene has no effect.
    pub calls-AllReviewed :
        (send : Option (Gene → String → Bool)) (decode_payload : String → Option String)
        (decode_gene : String → Option Gene) (cs : List HubCall) (h : EvolutionHub S)
        → AllReviewed h.store
        → AllReviewed
            (calls ops show_errors sends (some review) send decode_payload decode_gene cs h).store
    unfolding calls
    calls-AllReviewed send decode_payload decode_gene [] h a = a
    calls-AllReviewed send decode_payload decode_gene (submission now content client ∷ cs) h a =
        calls-AllReviewed send decode_payload decode_gene cs _
          (submission-AllReviewed now send decode_payload decode_gene content client h a)
    calls-AllReviewed send decode_payload decode_gene (rejection now id reason layer ∷ cs) h a =
        calls-AllReviewed send decode_payload decode_gene cs _
          (rejection-AllReviewed now id reason layer h a)
