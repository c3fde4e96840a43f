-- ===== src/Relay/Bucket.antt =====
-- `TokenBucket` of cliprelay-relay/src/lib.rs. Its numbers are `f64`: their type and operations are
-- parameters. A time is a count of nanoseconds that the caller passes in place of `Instant::now`.
use cliprelay.Base.{ℕ, ◌-◌, Bool, true, false, if◌then◌else◌}

pub record Floats (F : Type 0) : Type 0 where
  pub add : F → F → F
  pub sub : F → F → F
  pub mul : F → F → F
  pub min : F → F → F
  pub le : F → F → Bool
  -- `Duration::as_secs_f64` of that many nanoseconds, and a literal.
  pub as_secs : ℕ → F
  pub literal : ℕ → F

pub record TokenBucket (F : Type 0) : Type 0 where
  pub capacity : F
  pub refill_per_second : F
  pub tokens : F
  pub last_refill : ℕ

module _ {F : Type 0} (floats : Floats F) where
  open floats use {add, sub, mul, min, le, as_secs}

  unfoldable pub new : F → F → ℕ → TokenBucket F
  new capacity refill_per_second now = record {
    capacity = capacity;
    refill_per_second = refill_per_second;
    tokens = capacity;
    last_refill = now;
  }

  unfoldable pub refilled : TokenBucket F → ℕ → F
  refilled b now =
      min (add b.tokens (mul (as_secs (now - b.last_refill)) b.refill_per_second)) b.capacity

  -- `saturating_duration_since` is subtraction that stops at 0.
  unfoldable pub consume : TokenBucket F → F → ℕ → TokenBucket F × Bool
  unfolding refilled
  consume b amount now =
      let tokens = refilled b now in
      if le amount tokens
      then (record b { tokens = sub tokens amount; last_refill = now }, true)
      else (record b { tokens = tokens; last_refill = now }, false)
