-- ===== src/Evolution/Hub.antt =====
-- pkg/reef/evolution/server/hub.go: what the server does with a submitted gene. The store, the gatekeeper and
-- the broadcaster are behind interfaces; the store is never nil, and a broadcaster or gatekeeper that is nil is
-- `none`. Messages to clients and merge checks are recorded as events, newest first. `sends` is whether the
-- connection takes a message for a client, which only one reply depends on.
pub mod Safety
pub mod Approved
use reef.Prelude.{
  ℕ, ◌+◌, Bool, true, false, List, [], ◌∷◌, Option, none, some, String, str_eq, if◌then◌else◌,
}
use reef.Prelude.Int.{ℤ, pos}
use reef.Raft.Fsm.{Gene}
use reef.Evolution.{validate}
use reef.Evolution.Store.{GeneStore}

-- `GateResult`; the similarity, a float, is left out.
pub record GateResult : Type 0 where
  pub passed : Bool
  pub reason : String
  pub rejected_layer : ℤ
  pub risk_assessment : String

pub data HubEvent : Type 0 where
  broadcast_gene : Gene → String → HubEvent
  checked_merge : String → HubEvent
  told_approved : String → String → HubEvent
  told_rejected : String → String → String → ℤ → HubEvent

pub record HubStats : Type 0 where
  pub total_submitted : ℕ
  pub total_approved : ℕ
  pub total_rejected : ℕ
  pub total_broadcasted : ℕ
  pub last_activity : Option ℕ

pub record EvolutionHub (S : Type 0) : Type 0 where
  pub enabled : Bool
  pub has_merger : Bool
  pub store : S
  pub stats : HubStats
  pub events : List HubEvent

-- How a call returns.
pub data Reply : Type 0 where
  ok : Reply
  err : String → Reply

-- `NewEvolutionHub` with the zero counters
unfoldable pub new_evolution_hub : {S : Type 0} → Bool → Bool → S → EvolutionHub S
new_evolution_hub enabled has_merger s = record {
  enabled = enabled;
  has_merger = has_merger;
  store = s;
  stats = record {
    total_submitted = 0;
    total_approved = 0;
    total_rejected = 0;
    total_broadcasted = 0;
    last_activity = none;
  };
  events = [];
}

abbrev pub approved_at : ℕ → Gene → Gene
approved_at now g = record g { status = "approved"; approved_at = some now; updated_at = now }

abbrev pub rejected_at : ℕ → Gene → Gene
rejected_at now g = record g { status = "rejected"; updated_at = now }

-- `if gene.SourceClientID == "" { gene.SourceClientID = clientID }`
unfoldable pub with_source : String → Gene → Gene
with_source client g =
    if str_eq g.source_client_id "" then record g { source_client_id = client } else g

abbrev pub refusal : String → ℤ → GateResult
refusal reason layer = record {
  passed = false;
  reason = reason;
  rejected_layer = layer;
  risk_assessment = "";
}

module _ {S : Type 0} (ops : GeneStore S) (show_errors : List String → String)
    (sends : String → Bool) where
  -- `handleRejectedNotify`
  unfoldable pub tell_rejected : String → Gene → GateResult → EvolutionHub S → EvolutionHub S
  tell_rejected client g r h = record h {
    events = told_rejected client g.id r.reason r.rejected_layer ∷ h.events;
  }

  -- The broadcast, with what the broadcaster answers: false is an error.
  unfoldable pub broadcast :
      Option (Gene → String → Bool) → Gene → String → EvolutionHub S → EvolutionHub S
  broadcast none g client h = h
  broadcast (some send) g client h =
      let h' : EvolutionHub S = record h { events = broadcast_gene g client ∷ h.events } in
      if send g client
      then record h' {
        stats = record h.stats { total_broadcasted = h.stats.total_broadcasted + 1 };
      }
      else h'

  -- The end of the branch of an approved gene that is stored.
  unfoldable pub announce :
      Option (Gene → String → Bool) → String → Gene → EvolutionHub S → EvolutionHub S
  unfolding broadcast
  announce send client g h =
      let h1 = broadcast send g client h in
      let h2 : EvolutionHub S =
        if h1.has_merger then record h1 { events = checked_merge g.role ∷ h1.events } else h1 in
      record h2 {
        events = told_approved client g.id ∷ h2.events;
        stats = record h2.stats { total_approved = h2.stats.total_approved + 1 };
      }

  abbrev stamped : ℕ → EvolutionHub S → EvolutionHub S
  stamped now h = record h { stats = record h.stats { last_activity = some now } }

  abbrev with_store : S → EvolutionHub S → EvolutionHub S
  with_store s h = record h { store = s }

  -- The branch of a gene that passed; `g` is approved already.
  unfoldable pub approve :
      ℕ → Option (Gene → String → Bool) → String → Gene → EvolutionHub S → EvolutionHub S × Reply
  unfolding announce
  approve now send client g h = elim (ops.get_gene g.id h.store) [
    | none ↦ (h, err "check existing gene")
    | some (some existing) ↦
        let (s, updated) = ops.update_gene g h.store in
        if updated
        then (stamped now (announce send client g (with_store s h)), ok)
        else (with_store s h, err "update gene")
    | some none ↦
        let (s, inserted) = ops.insert_gene g h.store in
        if inserted
        then (stamped now (announce send client g (with_store s h)), ok)
        else (with_store s h, ok)
  ]

  -- The branch of a gene that the gatekeeper rejected.
  unfoldable pub reject : ℕ → String → Gene → GateResult → EvolutionHub S → EvolutionHub S × Reply
  unfolding tell_rejected
  reject now client g r h =
      let h1 = tell_rejected client g r (with_store (ops.insert_gene g h.store).0 h) in
      (
        stamped now (record h1 {
          stats = record h1.stats { total_rejected = h1.stats.total_rejected + 1 };
        }),
        ok,
      )

  -- What follows a review.
  unfoldable pub settle :
      ℕ
      → Option (Gene → String → Bool)
      → String
      → Gene
      → Option GateResult
      → EvolutionHub S
      → EvolutionHub S × Reply
  unfolding approve reject
  settle now send client g none h = (h, err "gatekeeper review")
  settle now send client g (some r) h =
      if r.passed
      then approve now send client (approved_at now g) h
      else reject now client (rejected_at now g) r h

  abbrev counted : EvolutionHub S → EvolutionHub S
  counted h = record h { stats = record h.stats { total_submitted = h.stats.total_submitted + 1 } }

  -- A gene that was read from the message.
  unfoldable pub handle_gene :
      ℕ
      → (S → Gene → Option GateResult)
      → Option (Gene → String → Bool)
      → String
      → Gene
      → EvolutionHub S
      → EvolutionHub S × Reply
  unfolding settle with_source tell_rejected
  handle_gene now review send client g h = elim (validate g) [
    | [] ↦
        settle now send client (with_source client g) (review h.store (with_source client g))
          (counted h)
    | e ∷ es ↦ (
      tell_rejected client g (refusal (show_errors (e ∷ es)) (pos 0)) h,
      if sends client then ok else err "send gene_rejected",
    )
  ]

  -- `HandleGeneSubmission`, with the two decoders of the message: `none` is an error.
  unfoldable pub handle_gene_submission :
      ℕ
      → Option (S → Gene → Option GateResult)
      → Option (Gene → String → Bool)
      → (String → Option String)
      → (String → Option Gene)
      → String
      → String
      → EvolutionHub S
      → EvolutionHub S × Reply
  unfolding handle_gene
  handle_gene_submission now gatekeeper send decode_payload decode_gene content client h =
      if h.enabled
      then elim gatekeeper [
        | none ↦ (h, err "evolution hub: gatekeeper not initialized")
        | some review ↦ elim (decode_payload content) [
          | none ↦ (h, err "decode gene_submit payload")
          | some gene_text ↦ elim (decode_gene gene_text) [
            | none ↦ (h, err "unmarshal gene data")
            | some g ↦ handle_gene now review send client g h
          ]
        ]
      ]
      else (h, ok)

  -- `HandleGeneRejected`
  unfoldable pub handle_gene_rejected :
      ℕ → String → String → ℤ → EvolutionHub S → EvolutionHub S × Reply
  unfolding tell_rejected
  handle_gene_rejected now id reason layer h =
      if h.enabled
      then elim (ops.get_gene id h.store) [
        | none ↦ (h, err "get gene")
        | some none ↦ (h, err "gene not found")
        | some (some g) ↦
            let (s, updated) = ops.update_gene (rejected_at now g) h.store in
            if updated
            then (
              tell_rejected g.source_client_id (rejected_at now g) (refusal reason layer)
                  record (with_store s h) {
                    stats = record h.stats { total_rejected = h.stats.total_rejected + 1 };
                  },
              ok,
            )
            else (with_store s h, err "update gene")
      ]
      else (h, ok)
