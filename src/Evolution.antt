-- ===== src/Evolution.antt =====
-- pkg/reef/evolution: genes, which clients submit and the server reviews, and what becomes of them. A gene
-- is the record of Raft/Fsm; its success rate, a float, is left out. Times are nanoseconds.
pub mod Store
pub mod Hub
pub mod Similarity
pub mod Gatekeeper
pub mod Broadcaster
pub mod Client
pub mod Merger
use reef.Prelude.{ℕ, Bool, List, [], ◌∷◌, ◌++◌, String, str_eq, ltb, if◌then◌else◌, length}
use reef.Prelude.Texts.{byte_len, line_count}
use reef.Raft.Fsm.{Gene}

-- `Validate`: the errors, in order
unfoldable pub validate : Gene → List String
unfolding byte_len line_count
validate g =
    (if str_eq g.strategy_name "" then "strategy_name required" ∷ [] else [])
    ++ ((if str_eq g.control_signal "" then "control_signal required" ∷ [] else [])
        ++ ((if ltb 5000 (byte_len g.control_signal)
              then "control_signal exceeds 5000 chars" ∷ []
              else [])
            ++ ((if ltb 200 (line_count g.control_signal)
                  then "control_signal exceeds 200 lines" ∷ []
                  else [])
                ++ (if ltb 20 (length g.failure_warnings)
                    then "failure_warnings exceeds 20 items" ∷ []
                    else []))))
