-- ===== src/Tests/Runtime.antt =====
-- Tests and witnesses about the task runner of a client and the review and broadcast of genes.
use reef.Prelude.{
  ℕ, zero, suc, ◌≤◌, ◌≡◌, refl, sym, ◌⊎◌, inl, inr, Bool, true, false, List, [], ◌∷◌, ◌++◌, Option,
  none, some, String, str_eq, arith, In, In-append, In-append_right, if◌then◌else◌, ltb, length,
  lookup,
}
use reef.Prelude.Int.{pos}
use reef.Prelude.Texts.{contains}
use reef.Raft.Fsm.{Gene}
use reef.Runner.{Outcome, Attempt, TaskRunner, new_task_runner}
use reef.Runner.Errors.{GoError}
use reef.Evolution.Store.{GeneStore, GeneLaws}
use reef.Evolution.{validate}
use reef.Evolution.Hub.{handle_gene_submission, GateResult, new_evolution_hub}
use reef.Evolution.Hub.Safety.{calls-AllReviewed, AllReviewed, calls, submission, rejection}
use reef.Evolution.Hub.Approved.{approved_are_clean}
use reef.Evolution.Broadcaster.{
  RoleClient, Broadcaster, new_broadcaster, targets, broadcast, get_pending_sync_ids,
  on_client_reconnect,
}
use reef.Evolution.Broadcaster.Delivery.{broadcast_reaches, Waits}
use reef.Evolution.Broadcaster.Reconnect.{reconnect_loses}
use reef.Evolution.Similarity.{Floats, Texts, tokenize_grams}
use reef.Evolution.Gatekeeper.{Gatekeeper, Surroundings, review}
use reef.Evolution.Gatekeeper.Duplicates.{repeated_is_refused}
use reef.Tests.Samples.{gene_of}

abbrev reset : GoError
reset = record {
  message = "connection reset";
  is_deadline_exceeded = false;
  is_canceled = false;
  is_net = true;
}

-- The first attempt fails on the network, the others succeed.
abbrev second_works : ℕ → Attempt
second_works zero = record {
  started_at = 0;
  ended_at = 5_000_000;
  outcome = Outcome.erred reset;
  cancelled = false;
}
second_works (suc n) = record {
  started_at = 9_000_000;
  ended_at = 12_000_000;
  outcome = Outcome.succeeded "done";
  cancelled = false;
}

abbrev runner : TaskRunner
runner = new_task_runner (pos 3) (pos 0)

-- A store of genes as a list
abbrev find : String → List Gene → Option Gene
find id [] = none
find id (g ∷ gs) = if str_eq g.id id then some g else find id gs

abbrev list_ops : GeneStore (List Gene)
list_ops = record {
  get_gene = λ id s. some (find id s);
  insert_gene = λ g s. (s ++ g ∷ [], true);
  update_gene = λ g s. (g ∷ s, true);
  approved_genes = λ role n s. some s;
  count_approved = λ role s. some (length s);
}

appended : (g x : Gene) (s : List Gene) → In x (s ++ g ∷ []) → (x ≡ g) ⊎ In x s
appended g x s i = elim (In-append x s (g ∷ []) i) [
  | inl j ↦ inr j
  | inr (inl e) ↦ inl (sym e)
  | inr (inr j) ↦ absurd j
]

abbrev list_laws : GeneLaws list_ops
list_laws = record {
  rows = λ s. s;
  kept = λ g. g;
  kept_id = λ g. refl;
  kept_status = λ g. refl;
  kept_control_signal = λ g. refl;
  kept_match_condition = λ g. refl;
  insert_rows = appended;
  update_rows = λ g x s i. elim i [ inl e ↦ inl (sym e) | inr j ↦ inr j ];
  inserted = λ g s e. In-append_right g s (g ∷ []) (inl refl);
  updated = λ g s e. inl refl;
}

abbrev waved_through : Gene → GateResult
waved_through g = record {
  passed = true;
  reason = "";
  rejected_layer = pos 0;
  risk_assessment = "";
}

-- A gene_of that claims to be approved already is submitted, and one that is stored is rejected.
calls-AllReviewed_example :
    AllReviewed list_ops list_laws
      (λ s g. some (waved_through g))
      (calls list_ops
        (λ es. "errors")
        (λ c. true)
        (some (λ s g. some (waved_through g)))
        none
        (λ t. some t)
        (λ t. some (gene_of t "approved"))
        (submission 5 "g1" "alice" ∷ rejection 6 "g1" "unsafe" (pos 0) ∷ [])
        (new_evolution_hub true false [])).store
unfolding new_evolution_hub
calls-AllReviewed_example =
    calls-AllReviewed list_ops list_laws (λ s g. some (waved_through g)) (λ es. "errors")
      (λ c. true) none (λ t. some t) (λ t. some (gene_of t "approved"))
      (submission 5 "g1" "alice" ∷ rejection 6 "g1" "unsafe" (pos 0) ∷ [])
      (new_evolution_hub true false []) (λ x i. absurd i)

abbrev alice : RoleClient
alice = record { id = "alice"; is_online = true }

abbrev carol : RoleClient
carol = record { id = "carol"; is_online = false }

abbrev broadcaster : Broadcaster
broadcaster = new_broadcaster true (pos 2)

broadcast_reaches_example :
    let (b, sent, fine) =
      broadcast (alice ∷ carol ∷ []) (λ c. true) 2 (gene_of "g1" "approved") "bob" broadcaster in
    (fine ≡ true) × (In "carol" sent ⊎ Waits "carol" "g1" b)
unfolding new_broadcaster targets
broadcast_reaches_example =
    broadcast_reaches (alice ∷ carol ∷ []) (λ c. true) 2 (gene_of "g1" "approved") "bob" broadcaster
      carol refl (omega arith) (omega arith) (inr (inl refl)) refl

abbrev waiting : Broadcaster
waiting = record broadcaster { pending_sync = ("alice", "g1" ∷ "g2" ∷ []) ∷ [] }

reconnect_loses_example :
    let (b, sent) =
      on_client_reconnect (λ id. some (gene_of id "approved")) (λ id. false) "alice" waiting in
    (get_pending_sync_ids "alice" b ≡ "g1" ∷ []) × (length sent ≤ 0)
unfolding new_broadcaster get_pending_sync_ids lookup
reconnect_loses_example =
    reconnect_loses (λ id. some (gene_of id "approved")) (λ id. false) "alice" [] ("g2" ∷ []) "g1"
      (gene_of "g1" "approved") waiting refl refl tt refl refl refl

-- Floats are whole numbers here: the quotient of a number by itself is one.
abbrev whole : Floats ℕ
whole = record {
  of_nat = λ n. n;
  mul = λ a b. a;
  div = λ a b. 1;
  sqrt = λ a. a;
  below = ltb;
  show = λ a. "1";
}

abbrev texts : Texts
texts = record {
  trim_space = λ s. s;
  to_upper = λ s. s;
  trim_prefix = λ p s. s;
  trim_left = λ p s. s;
  shingle_words = λ s. "run" ∷ "the" ∷ "tests" ∷ "first" ∷ [];
  plain_words = λ s. [];
}

abbrev gatekeeper : Gatekeeper ℕ
gatekeeper = record {
  enable_layer1 = true;
  enable_layer2 = true;
  enable_layer3 = false;
  dedup_threshold = 1;
  compiled_patterns = "rm -rf" ∷ [];
  max_regression_simulations = 5;
}

-- A store with these approved genes
abbrev around : Option (List Gene) → Surroundings
around genes = record {
  matches = contains_pattern;
  approved_genes = λ role n. genes;
  recent_tasks = λ role n. none;
  chat = none;
}
  where
    contains_pattern : String → String → Bool
    contains_pattern p text = contains text p

repeated_is_refused_example :
    (review whole texts gatekeeper
      (around (some (gene_of "g1" "approved" ∷ [])))
      (gene_of "g2" "submitted")).passed
    ≡ false
unfolding tokenize_grams
repeated_is_refused_example =
    repeated_is_refused whole texts gatekeeper (around (some (gene_of "g1" "approved" ∷ [])))
      (gene_of "g2" "submitted") (gene_of "g1" "approved") (gene_of "g1" "approved" ∷ []) refl refl
      (inl refl) refl refl (omega arith) (λ n p. refl)

-- The gene of the submission, as the store holds it
abbrev stored : Gene
stored = record (gene_of "g1" "approved") {
  source_client_id = "alice";
  updated_at = 5;
  approved_at = some 5;
}

approved_are_clean_example :
    (contains "run the tests first" "rm -rf" ≡ false) × (contains "" "rm -rf" ≡ false)
unfolding new_evolution_hub calls handle_gene_submission validate review contains
approved_are_clean_example =
    approved_are_clean list_ops list_laws whole texts gatekeeper (λ p text. contains text p)
      (λ s. around none) (λ s. refl) (λ es. "errors") (λ c. true) none (λ t. some t)
      (λ t. some (gene_of t "draft")) (submission 5 "g1" "alice" ∷ [])
      (new_evolution_hub true false []) stored "rm -rf" refl (λ x i. absurd i) (inl refl) refl
      (inl refl)
