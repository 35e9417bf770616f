-- ===== src/Runner/Errors.antt =====
-- pkg/reef/error_classifier.go: which errors are worth another attempt. `lower` is strings.ToLower; the
-- library's tests on the kind of an error are fields of it.
use reef.Prelude.{Bool, true, false, ◌||◌, List, [], ◌∷◌, Option, none, some, String, if◌then◌else◌}
use reef.Prelude.Texts.{contains}

pub record GoError : Type 0 where
  pub message : String
  pub is_deadline_exceeded : Bool
  pub is_canceled : Bool
  pub is_net : Bool

-- The loop over a list of signals
unfoldable pub shows_any : String → List String → Bool
unfolding contains
shows_any text [] = false
shows_any text (signal ∷ signals) = contains text signal || shows_any text signals

unfoldable pub is_context_error : GoError → Bool
is_context_error e = e.is_deadline_exceeded || e.is_canceled

abbrev pub net_signals : List String
net_signals =
    "connection refused" ∷ "connection reset" ∷ "no such host" ∷ "i/o timeout" ∷ "broken pipe"
    ∷ "use of closed network connection" ∷ []

abbrev pub permanent_signals : List String
permanent_signals =
    "syntax error" ∷ "invalid argument" ∷ "invalid parameter" ∷ "permission denied" ∷ "not found"
    ∷ "already exists" ∷ []

unfoldable pub is_net_error : (String → String) → GoError → Bool
unfolding shows_any
is_net_error lower e = e.is_net || shows_any (lower e.message) net_signals

-- `IsRetryable`
unfoldable pub is_retryable : (String → String) → Option GoError → Bool
unfolding is_context_error is_net_error shows_any
is_retryable lower none = false
is_retryable lower (some e) =
    if is_context_error e
    then true
    else if is_net_error lower e
    then true
    else if shows_any (lower e.message) permanent_signals
    then false
    else true
