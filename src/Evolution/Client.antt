-- ===== src/Evolution/Client.antt =====
-- pkg/reef/evolution/client: what a client does with what it learns. A submitter is in Client/Submitter, the cycle in Client/Evolver, the triggers of a cycle in Client/Recorder, the local
-- gatekeeper (gate.go) here. Regular expressions are an argument; the reason of a refusal is left out.
pub mod Submitter
pub mod Evolver
pub mod Recorder
use reef.Prelude.{
  ℕ, Bool, true, false, not, ◌&&◌, ◌||◌, List, [], ◌∷◌, String, str_eq, ltb, if◌then◌else◌, length,
}
use reef.Prelude.Texts.{byte_len, line_count}
use reef.Raft.Fsm.{Gene}

pub record LocalGatekeeper : Type 0 where
  pub syntax_max_chars : ℕ
  pub syntax_max_lines : ℕ
  pub syntax_max_warnings : ℕ
  pub enable_semantic_check : Bool
  pub compiled_patterns : List String

-- `checkSyntax`, without a reason
unfoldable pub check_syntax : LocalGatekeeper → Gene → Bool
unfolding byte_len line_count
check_syntax k g =
    if str_eq g.strategy_name ""
    then false
    else if str_eq g.control_signal ""
    then false
    else if ltb k.syntax_max_chars (byte_len g.control_signal)
    then false
    else if ltb k.syntax_max_lines (line_count g.control_signal)
    then false
    else not (ltb k.syntax_max_warnings (length g.failure_warnings))

-- `checkSemantics`: no pattern matches one of the two texts.
unfoldable pub check_semantics : (String → String → Bool) → List String → Gene → Bool
check_semantics matches [] g = true
check_semantics matches (p ∷ ps) g =
    if matches p g.control_signal
    then false
    else if matches p g.match_condition
    then false
    else check_semantics matches ps g

-- `Check`
unfoldable pub check : (String → String → Bool) → LocalGatekeeper → Gene → Bool
unfolding check_syntax check_semantics
check matches k g =
    if check_syntax k g
    then (if k.enable_semantic_check then check_semantics matches k.compiled_patterns g else true)
    else false
