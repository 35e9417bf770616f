-- ===== src/Evolution/Hub/Approved.antt =====
-- pkg/reef/evolution/server/hub.go with the gatekeeper of gate.go: what the texts of approved genes cannot hold.
use reef.Prelude.{◌≡◌, sym, Bool, true, false, List, Option, some, String, str_eq, In, ap, ◌∙◌}
use reef.Raft.Fsm.{Gene}
use reef.Evolution.Store.{GeneStore, GeneLaws}
use reef.Evolution.Hub.{GateResult, EvolutionHub, approved_at}
use reef.Evolution.Hub.Safety.{HubCall, calls, Reviewed, AllReviewed, calls-AllReviewed}
use reef.Evolution.Similarity.{Floats, Texts}
use reef.Evolution.Gatekeeper.{Gatekeeper, Surroundings, review}
use reef.Evolution.Gatekeeper.Clean.{passed_is_clean}

module _ {S F : Type 0} (ops : GeneStore S) (laws : GeneLaws ops) (fl : Floats F) (t : Texts)
    (k : Gatekeeper F) (matches : String → String → Bool) (around : S → Surroundings)
    (same : (s : S) → (around s).matches ≡ matches) where
  abbrev pub gate_review : S → Gene → Option GateResult
  gate_review s g = some (review fl t k (around s) g)

  row_is_clean :
      (x : Gene) (pattern : String)
      → k.enable_layer1 ≡ true
      → Reviewed ops laws gate_review x
      → In pattern k.compiled_patterns
      → (matches pattern x.control_signal ≡ false) × (matches pattern x.match_condition ≡ false)
  row_is_clean x pattern on (s, g, r, now, e, p, f) i =
      let same_result : review fl t k (around s) g ≡ r = cc in
      let passed : (review fl t k (around s) g).passed ≡ true = rw same_result p in
      let (a, b) = passed_is_clean fl t k (around s) g pattern on passed i in
      let found = ap (λ (m : String → String → Bool). m pattern g.control_signal) (same s) in
      let found_condition =
        ap (λ (m : String → String → Bool). m pattern g.match_condition) (same s) in
      (
        ap (λ (x : Gene). matches pattern x.control_signal) f
            ∙ (ap (matches pattern) (laws.kept_control_signal (approved_at now g))
                ∙ (sym found ∙ a)),
        ap (λ (x : Gene). matches pattern x.match_condition) f
            ∙ (ap (matches pattern) (laws.kept_match_condition (approved_at now g))
                ∙ (sym found_condition ∙ b)),
      )

  -- With the gatekeeper of the server and its first layer on, from a store whose approved genes were reviewed:
  -- whatever clients submit and administrators reject, no dangerous pattern matches the control signal or
  -- the match condition of a gene that the store holds as approved.
  pub approved_are_clean :
      (show_errors : List String → String) (sends : String → Bool)
      (send : Option (Gene → String → Bool)) (decode_payload : String → Option String)
      (decode_gene : String → Option Gene) (cs : List HubCall) (h : EvolutionHub S) (x : Gene)
      (pattern : String)
      → k.enable_layer1 ≡ true
      → AllReviewed ops laws gate_review h.store
      → In x (
          laws.rows
            (calls ops show_errors sends
              (some gate_review)
              send
              decode_payload
              decode_gene
              cs
              h).store)
      → str_eq x.status "approved" ≡ true
      → In pattern k.compiled_patterns
      → (matches pattern x.control_signal ≡ false) × (matches pattern x.match_condition ≡ false)
  approved_are_clean show_errors sends send decode_payload decode_gene cs h x pattern on a i s p =
      row_is_clean x pattern on
        (calls-AllReviewed ops laws gate_review show_errors sends send decode_payload decode_gene cs
          h a x i s)
        p
