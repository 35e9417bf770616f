-- ===== src/Tests/Learning.antt =====
-- Tests and witnesses about what clients learn and how it becomes a skill.
use reef.Prelude.{
  ℕ, ◌≡◌, refl, sym, ◌⊎◌, inl, inr, true, false, List, [], ◌∷◌, Option, none, some, String, str_eq,
  arith, In, leb, if◌then◌else◌,
}
use reef.Prelude.Int.{pos}
use reef.Raft.Fsm.{Gene, SkillDraft}
use reef.Evolution.Client.Submitter.{GeneSubmitter, on_reconnect}
use reef.Evolution.Client.Submitter.Draining.{Split, drain_queue-Split, drain_queue_panics}
use reef.Evolution.Client.Evolver.{LocalGeneEvolver, Cycle, Cuts, evolve}
use reef.Evolution.Client.Evolver.Submitted.{SubmitsPassed, evolve-SubmitsPassed}
use reef.Evolution.Client.Recorder.{
  RecorderTrigger, new_recorder, after_record, after_record_reasons,
}
use reef.Evolution.Merger.{MergerStore, SkillTexts, SkillMerger, new_draft}
use reef.Evolution.Merger.Published.{
  DraftLaws, AllWritten, calls, calls-AllWritten, merges, approves,
}
use reef.Evolution.Merger.Draft.{moves}
use reef.Evolution.Merger.Draft.Dates.{IsDated, moves-IsDated}
use reef.Tests.Samples.{gene_of}

-- Two genes wait; `retries` are allowed.
abbrev waiting : ℕ → GeneSubmitter
waiting retries = record {
  connected = false;
  offline_queue = gene_of "g1" "draft" ∷ gene_of "g2" "draft" ∷ [];
  max_queue_size = 10;
  max_retries = retries;
}

-- The first gene gets through, the second one does not.
drain_queue-Split_example :
    (s' : GeneSubmitter) × (sent : List Gene) × (on_reconnect (λ n. leb n 0) (λ n. n) (waiting 3)
      ≡ some (s', sent))
    × Split (gene_of "g1" "draft" ∷ gene_of "g2" "draft" ∷ []) sent s'.offline_queue
drain_queue-Split_example =
    drain_queue-Split (λ n. leb n 0) (λ n. n) (waiting 3) (omega arith) (omega arith)

drain_queue_panics_example : on_reconnect (λ n. false) (λ n. n) (waiting 4) ≡ none
drain_queue_panics_example =
    drain_queue_panics (λ n. false) (λ n. n) (waiting 4) (omega arith) (omega arith) (λ n h. refl)

abbrev first_draft : SkillDraft
first_draft = new_draft "d1" 5 "coder" "error-recovery" "# Recovery" []

moves-IsDated_example :
    IsDated (moves ((6, "approved") ∷ (7, "rejected") ∷ (8, "published") ∷ []) first_draft)
moves-IsDated_example =
    moves-IsDated ((6, "approved") ∷ (7, "rejected") ∷ (8, "published") ∷ []) first_draft
      (inl (refl, refl))

abbrev find : String → List SkillDraft → Option SkillDraft
find id [] = none
find id (d ∷ ds) = if str_eq d.id id then some d else find id ds

-- A store of drafts as a list, in which the newest row comes first
abbrev list_ops : MergerStore (List SkillDraft)
list_ops = record {
  count_approved_genes = λ role s. some 5;
  get_approved_genes = λ role n s. some (gene_of "g1" "approved" ∷ []);
  save_skill_draft = λ d s. (d ∷ s, true);
  get_skill_draft = λ id s. some (find id s);
  update_skill_draft = λ d s. (d ∷ s, true);
}

first_row : (d x : SkillDraft) (s : List SkillDraft) → In x (d ∷ s) → (x ≡ d) ⊎ In x s
first_row d x s (inl e) = inl (sym e)
first_row d x s (inr i) = inr i

abbrev list_laws : DraftLaws list_ops
list_laws = record {
  rows = λ s. s;
  kept = λ d. d;
  kept_status = λ d. refl;
  kept_role = λ d. refl;
  kept_skill_name = λ d. refl;
  kept_content = λ d. refl;
  save_rows = first_row;
  update_rows = first_row;
}

abbrev texts : SkillTexts
texts = record {
  to_lower = λ s. s;
  trim_space = λ s. s;
  trim_dashes = λ s. s;
  cut = λ s. s;
  is_letter = λ c. true;
  is_digit = λ c. false;
  lower_char = λ c. c;
}

abbrev merger : SkillMerger (List SkillDraft)
merger = record {
  store = [];
  merge_threshold = 5;
  max_genes_per_merge = 10;
  files = [];
  notes = [];
}

-- A draft is made and approved.
calls-AllWritten_example :
    AllWritten list_ops list_laws
      (λ role name. name)
      (calls list_ops texts
        (λ role name. name)
        (merges (some (λ genes. some "# Skill")) false "d1" 5 "coder"
          ∷ approves true true 6 "d1"
          ∷ [])
        merger)
calls-AllWritten_example =
    calls-AllWritten list_ops list_laws (λ role name. name) texts
      (merges (some (λ genes. some "# Skill")) false "d1" 5 "coder"
        ∷ approves true true 6 "d1"
        ∷ [])
      merger (λ x i. absurd i)

abbrev evolver : LocalGeneEvolver
evolver = record {
  stagnation_threshold = 3;
  max_gene_lines = 200;
  max_control_signal_chars = 5000;
  has_submitter = true;
  saved = [];
  marked = [];
  stagnated = [];
  submitted = [];
}

-- A failure is looked at, and the model's answer claims to be approved.
abbrev cycle : Cycle
cycle = record {
  events = some (
      record { id = "e1"; client_id = "alice"; event_type = "failure_pattern"; gene_id = "" } ∷ []);
  below_repair = true;
  below_novel = true;
  top_genes = some [];
  answer = some (gene_of "" "approved");
  new_id = "g9";
  now = 100;
  can_save = λ g. true;
}

abbrev cuts : Cuts
cuts = record { first_bytes = λ n s. s; first_lines = λ n s. s }

evolve-SubmitsPassed_example :
    SubmitsPassed (some (λ g. true)) evolver (evolve (some (λ g. true)) cuts cycle evolver)
evolve-SubmitsPassed_example = evolve-SubmitsPassed (some (λ g. true)) cuts cycle evolver

abbrev trigger : RecorderTrigger
trigger = new_recorder 0 (pos 1) (pos 30) true

-- The batch is full and the time is over: only the batch starts a cycle.
after_record_reasons_example :
    (after_record 9_000_000_000_000 (some 2) "success_pattern" 1 trigger).fired
    ≡ "batch_threshold" ∷ []
unfolding new_recorder
after_record_reasons_example =
    after_record_reasons 9_000_000_000_000 (some 2) "success_pattern" 1 trigger (omega arith)
