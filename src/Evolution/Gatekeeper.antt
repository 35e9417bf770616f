-- ===== src/Evolution/Gatekeeper.antt =====
-- pkg/reef/evolution/server/gate.go: the review of a gene in three layers. Floats, regular expressions, the
-- library's functions on texts and the language model are arguments. The prompt of the third layer is not
-- modelled: the model is asked about a gene and tasks. Of a result the similarity is left out, and
-- so is the callback on a rejection.
pub mod Clean
pub mod Duplicates
use mathlib.Core.Option
use reef.Prelude.{
  ℕ, Bool, true, false, not, ◌||◌, List, [], ◌∷◌, Option, none, some, String, str_eq, str_append,
  leb, if◌then◌else◌, length,
}
use reef.Prelude.Int.{ℤ, pos}
use reef.Prelude.Texts.{codes, starts_with}
use reef.Task.{Task}
use reef.Raft.Fsm.{Gene}
use reef.Evolution.Hub.{GateResult}
use reef.Evolution.Similarity.{Floats, Texts, tokenize_grams, jaccard_similarity, cosine_similarity}

pub record Gatekeeper (F : Type 0) : Type 0 where
  pub enable_layer1 : Bool
  pub enable_layer2 : Bool
  pub enable_layer3 : Bool
  pub dedup_threshold : F
  pub compiled_patterns : List String
  pub max_regression_simulations : ℕ

-- What the review asks of the rest of the server: `none` is an error, and no language model.
pub record Surroundings : Type 0 where
  pub matches : String → String → Bool
  pub approved_genes : String → ℕ → Option (List Gene)
  pub recent_tasks : String → ℕ → Option (List Task)
  pub chat : Option (Gene → List Task → Option String)

abbrev accepted : String → GateResult
accepted risk = record {
  passed = true;
  reason = "";
  rejected_layer = pos 0;
  risk_assessment = risk;
}

abbrev refused : ℕ → String → String → GateResult
refused layer reason risk = record {
  passed = false;
  reason = reason;
  rejected_layer = pos layer;
  risk_assessment = risk;
}

-- The first pattern of a loop that matches the text
unfoldable pub first_match : (String → String → Bool) → String → List String → Option String
first_match matches text [] = none
first_match matches text (p ∷ ps) = if matches p text then some p else first_match matches text ps

abbrev either_reason : Option String → Option String → Option String
either_reason (some r) other = some r
either_reason none other = other

-- A loop over the patterns that ends in the reason of a rejection
abbrev found : (String → String → Bool) → String → String → List String → Option String
found matches label text patterns =
    Option.map (λ p. str_append label p) (first_match matches text patterns)

module _ {F : Type 0} (fl : Floats F) (t : Texts) where
  -- What a loop over the existing genes comes to: a duplicate and its similarity, or the greatest one.
  pub data Scan : Type 0 where
    duplicate : String → F → Scan
    greatest : F → Scan

  abbrev max_of : F → F → F
  max_of m s = if fl.below m s then s else m

  -- The first loop of `reviewLayer2`
  unfoldable pub scan_jaccard : F → List String → F → List Gene → Scan
  unfolding jaccard_similarity tokenize_grams
  scan_jaccard threshold grams m [] = greatest m
  scan_jaccard threshold grams m (g ∷ gs) =
      let others = tokenize_grams t g.control_signal in
      let s = jaccard_similarity fl t grams others in
      let skipped = scan_jaccard threshold grams m gs in
      let later = scan_jaccard threshold grams (max_of m s) gs in
      if str_eq g.control_signal "" || leb (length others) 0
      then skipped
      else if not (fl.below s threshold)
      then duplicate g.id s
      else later

  -- The second loop
  unfoldable pub scan_cosine : F → String → F → List Gene → Scan
  unfolding cosine_similarity
  scan_cosine threshold text m [] = greatest m
  scan_cosine threshold text m (g ∷ gs) =
      let s = cosine_similarity fl t text g.control_signal in
      let skipped = scan_cosine threshold text m gs in
      let later = scan_cosine threshold text (max_of m s) gs in
      if str_eq g.control_signal ""
      then skipped
      else if not (fl.below s threshold)
      then duplicate g.id s
      else later

  -- The reason of a rejection, with the word for the measure
  abbrev reason_of : String → Scan → Option String
  reason_of measure (duplicate id s) = some (
      str_append "similar to existing gene "
        (str_append id (str_append measure (str_append (fl.show s) ")"))))
  reason_of measure (greatest m) = none

  -- The fallback, if nothing was similar at all
  unfoldable pub fall_back : F → String → List Gene → Scan → Option String
  unfolding scan_cosine
  fall_back threshold text genes (duplicate id s) = reason_of " (similarity=" (duplicate id s)
  fall_back threshold text genes (greatest m) =
      if fl.below (fl.of_nat 0) m
      then none
      else reason_of " (cosine=" (scan_cosine threshold text m genes)

  module _ (k : Gatekeeper F) (w : Surroundings) where
    -- `reviewLayer1`: the reason of a rejection
    unfoldable pub review_layer1 : Gene → Option String
    unfolding first_match
    review_layer1 g =
        either_reason
          (found w.matches "dangerous pattern detected: " g.control_signal k.compiled_patterns)
          (found w.matches "dangerous pattern detected in match_condition: " g.match_condition
            k.compiled_patterns)

    -- `reviewLayer2`
    unfoldable pub review_layer2 : Gene → Option String
    unfolding scan_jaccard fall_back tokenize_grams
    review_layer2 g =
        let grams = tokenize_grams t g.control_signal in
        elim (w.approved_genes g.role 50) [
          | none ↦ none
          | some genes ↦
              if leb (length genes) 0 || leb (length grams) 0
              then none
              else fall_back k.dedup_threshold g.control_signal genes
                  (scan_jaccard k.dedup_threshold grams (fl.of_nat 0) genes)
        ]

    -- The end of `reviewLayer3`: the text of the answer, without spaces round it
    unfoldable pub read_answer : String → GateResult
    unfolding starts_with
    read_answer answer =
        let upper = codes (t.to_upper answer) in
        let after_pass =
          t.trim_left ": \t\n"
            (t.trim_space (t.trim_prefix "pass" (t.trim_space (t.trim_prefix "PASS" answer)))) in
        let after_fail =
          t.trim_left ": \t\n"
            (t.trim_space (t.trim_prefix "fail" (t.trim_space (t.trim_prefix "FAIL" answer)))) in
        let reason = if str_eq after_fail "" then "regression risk detected" else after_fail in
        if starts_with upper (codes "PASS")
        then accepted after_pass
        else if starts_with upper (codes "FAIL")
        then refused 3 reason reason
        else refused 3 "ambiguous_llm_response" answer

    unfoldable pub review_layer3 : Gene → GateResult
    unfolding read_answer
    review_layer3 g = elim w.chat [
      | none ↦ accepted ""
      | some ask ↦
          if not (str_eq g.strategy_name "harden")
          then accepted ""
          else elim (w.recent_tasks g.role k.max_regression_simulations) [
            | none ↦ accepted ""
            | some [] ↦ accepted ""
            | some (x ∷ xs) ↦ elim (ask g (x ∷ xs)) [
              | none ↦ accepted ""
              | some answer ↦ read_answer (t.trim_space answer)
            ]
          ]
    ]

    -- A layer that is switched off rejects nothing.
    abbrev if_on : Bool → Option String → Option String
    if_on on reason = if on then reason else none

    -- `Review`: the layers in sequence, to the first one that rejects
    unfoldable pub review : Gene → GateResult
    unfolding review_layer1 review_layer2 review_layer3
    review g =
        let third = if k.enable_layer3 then review_layer3 g else accepted "" in
        elim (if_on k.enable_layer1 (review_layer1 g)) [
          | some reason ↦ refused 1 reason ""
          | none ↦ elim (if_on k.enable_layer2 (review_layer2 g)) [
            | some reason ↦ refused 2 reason ""
            | none ↦ third
          ]
        ]
