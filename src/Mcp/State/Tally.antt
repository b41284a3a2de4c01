-- ===== src/Mcp/State/Tally.antt =====
-- What the status of a server says of its count of failures, and the delays of the schedule.
use mcpshim.Prelude.{
  ℕ, zero, suc, ◌+◌, ◌≤◌, ◌<◌, ◌≡◌, Bool, true, false, Option, none, List, ◌∷◌, length, Text, pos,
  arith, ◌==◌, ap, if◌then◌else◌,
}
use mcpshim.Mcp.State.{
  Status, unknown, healthy, degraded, failed, auth_required, ServerState, Time, Channel,
  record_success, record_failure, schedule_retry, at_index, backoff_delay, clamp_index,
}

-- The count of consecutive failures that a status stands for.
abbrev pub Counts : Status → ℕ → Type 0
Counts unknown k = k ≡ 0
Counts healthy k = k ≡ 0
Counts degraded k = k ≡ 1
Counts failed k = 2 ≤ k
Counts auth_required k = 1 ≤ k

-- A well-formed state: the status agrees with the count of failures, and a retry time is set only
-- beside a channel that can cancel it.
pub record IsTallied (s : ServerState) : Type 0 where
  pub counts : Counts s.status s.attempt_count
  pub pending : s.retry_cancel ≡ none → s.pending_retry_at ≡ 0

pub record_success-IsTallied :
    (s : ServerState) (now : Time) → IsTallied s → IsTallied (record_success s now).0
unfolding record_success
record_success-IsTallied s now h = ground arith

failure-Counts :
    (k : ℕ) (authorize : Bool)
    → Counts (if authorize then auth_required else if k == 0 then degraded else failed) (k + 1)
failure-Counts k true = omega arith
failure-Counts zero false = omega arith
failure-Counts (suc k) false =
    let more : (suc k == 0) ≡ false = ground arith in rw more (omega arith)

pub record_failure-IsTallied :
    (s : ServerState) (err : Option Text) (authorize : Bool) (now : Time)
    → IsTallied s
    → IsTallied (record_failure s err authorize now).0
unfolding record_failure
record_failure-IsTallied s err authorize now h = record {
  counts = failure-Counts s.attempt_count authorize;
  pending = h.pending;
}

pub schedule_retry-IsTallied :
    (s : ServerState) (delay : ℕ) (channel : Channel) (now : Time)
    → IsTallied s
    → IsTallied (schedule_retry s delay channel now).0
unfolding schedule_retry
schedule_retry-IsTallied s delay channel now h = ground arith

clamp_last : (n i : ℕ) → n ≤ i → clamp_index (pos i) (suc n) ≡ n
unfolding clamp_index
clamp_last n i h = ground arith

clamp_within : (n i : ℕ) → i < n → clamp_index (pos i) n ≡ i
unfolding clamp_index
clamp_within n i h = ground arith

-- A failure within the schedule waits for its own entry.
pub backoff_delay-within :
    (d : ℕ) (schedule : List ℕ) (i : ℕ)
    → i < length (d ∷ schedule)
    → backoff_delay (d ∷ schedule) (pos i) ≡ at_index (d ∷ schedule) i
unfolding backoff_delay
backoff_delay-within d schedule i h =
    ap (at_index (d ∷ schedule)) (clamp_within (length (d ∷ schedule)) i h)

-- Every failure from the last entry on waits for the last entry.
pub backoff_delay-cap :
    (d : ℕ) (schedule : List ℕ) (i : ℕ)
    → length schedule ≤ i
    → backoff_delay (d ∷ schedule) (pos i) ≡ at_index (d ∷ schedule) (length schedule)
unfolding backoff_delay
backoff_delay-cap d schedule i h = ap (at_index (d ∷ schedule)) (clamp_last (length schedule) i h)
