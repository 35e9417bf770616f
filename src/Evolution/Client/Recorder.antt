-- ===== src/Evolution/Client/Recorder.antt =====
-- pkg/reef/evolution/client/recorder.go: what starts a cycle of the evolver. What the store answers is an input;
-- the clock does not move during a call. The reasons of the cycles that are started are recorded, newest first.
use reef.Prelude.{
  ℕ, ◌-◌, ◌*◌, ◌+◌, ◌<◌, ◌≡◌, Bool, false, ◌&&◌, List, [], ◌∷◌, Option, none, some, String, str_eq,
  leb, ltb, ◌==◌, if◌then◌else◌, arith,
}
use reef.Prelude.Int.{ℤ, or_default}

pub record RecorderTrigger : Type 0 where
  pub batch_count : ℕ
  pub batch_threshold : ℕ
  pub last_trigger_time : ℕ
  pub time_threshold : ℕ
  pub new_failure_trigger : Bool
  pub fired : List String

-- `NewRecorder`: its trigger
unfoldable pub new_recorder : ℕ → ℤ → ℤ → Bool → RecorderTrigger
new_recorder now batch minutes new_failure = record {
  batch_count = 0;
  batch_threshold = or_default 5 batch;
  last_trigger_time = now;
  time_threshold = or_default 30 minutes * 60_000_000_000;
  new_failure_trigger = new_failure;
  fired = [];
}

unfoldable pub fire : ℕ → String → RecorderTrigger → RecorderTrigger
fire now reason t = record t { last_trigger_time = now; fired = reason ∷ t.fired }

-- `isFirstFailureForTask`, from the count of failure events of the client
unfoldable pub is_first_failure : Option ℕ → Bool
is_first_failure none = false
is_first_failure (some n) = n == 1

-- `afterRecord`
unfoldable pub after_record : ℕ → Option ℕ → String → ℕ → RecorderTrigger → RecorderTrigger
unfolding fire is_first_failure
after_record now failures event_type pending t =
    let t0 : RecorderTrigger = record t { batch_count = t.batch_count + 1 } in
    let t1 =
      if t.new_failure_trigger && (str_eq event_type "failure_pattern" && is_first_failure failures)
      then fire now "immediate_new_failure" t0
      else t0 in
    let t2 = if leb t.batch_threshold pending then fire now "batch_threshold" t1 else t1 in
    if leb t.time_threshold (now - t2.last_trigger_time) && ltb 0 pending
    then fire now "time_interval" t2
    else t2

-- How a call returns.
pub data Reply : Type 0 where
  ok : Reply
  err : String → Reply

-- `Record`, of an event with this id and type: whether the store takes it, and what it answers afterwards
unfoldable pub record_event :
    ℕ → Bool → Option ℕ → Option ℕ → String → String → RecorderTrigger → RecorderTrigger × Reply
unfolding after_record
record_event now inserted pending failures id event_type t =
    if str_eq id ""
    then (t, err "recorder: event ID cannot be empty")
    else if inserted
    then elim pending [ none ↦ (t, ok) | some n ↦ (after_record now failures event_type n t, ok) ]
    else (t, err "recorder: insert event")

-- The time interval alone starts a cycle only if neither of the other triggers does: after a trigger in the same
-- call, no time has passed since the last one. The two others may both start a cycle.
pub after_record_reasons :
    (now : ℕ) (failures : Option ℕ) (event_type : String) (pending : ℕ) (t : RecorderTrigger)
    → 0 < t.time_threshold
    → let first =
        t.new_failure_trigger
        && (str_eq event_type "failure_pattern" && is_first_failure failures) in
      let full = leb t.batch_threshold pending in
      let late = leb t.time_threshold (now - t.last_trigger_time) && ltb 0 pending in
      (after_record now failures event_type pending t).fired ≡ (
        if first
        then (if full
            then "batch_threshold" ∷ "immediate_new_failure" ∷ t.fired
            else "immediate_new_failure" ∷ t.fired)
        else if full
        then "batch_threshold" ∷ t.fired
        else if late
        then "time_interval" ∷ t.fired
        else t.fired)
unfolding after_record fire
after_record_reasons now failures event_type pending t h = ground (arith, h)
