-- ===== src/Runtime/Policy.antt =====
-- crates/gmr-runtime/src/policy.rs: the settings of the runtime, and the delay after a failure.
use native.Mathlib.Nat.{pow-le-pow_right, mul-le-mul_left}
use gmr.Support.{ℕ, ◌-◌, ◌*◌, ◌^◌, ◌≤◌, ◌<◌, min, ltb, if◌then◌else◌, ◌≡◌, arith}
use gmr.Json.{ℤ, pos, negsuc}

pub record Policy : Type 0 where
  pub cadence_secs : ℕ
  pub lease_secs : ℕ
  pub backoff_base_secs : ℕ
  pub backoff_cap_secs : ℕ
  pub batch : ℕ
  pub observe_at_once : ℕ
  pub stalled_attempts : ℕ
  pub stalled_staleness_secs : ℤ
  pub probe_budget_ms : ℕ
  pub probe_output_cap : ℕ
  pub content_call_ms : ℕ
  pub content_total_ms : ℕ

-- Policy::default
abbrev pub default_policy : Policy
default_policy = record {
  cadence_secs = 300;
  lease_secs = 60;
  backoff_base_secs = 30;
  backoff_cap_secs = 3600;
  batch = 64;
  observe_at_once = 16;
  stalled_attempts = 3;
  stalled_staleness_secs = pos (24 * 3600);
  probe_budget_ms = 30000;
  probe_output_cap = 1024 * 1024;
  content_call_ms = 5000;
  content_total_ms = 30000;
}

-- `saturating_mul` of two `u64`
unfoldable pub saturating_mul : ℕ → ℕ → ℕ
saturating_mul a b = min (a * b) (2 ^ 64 - 1)

backoff_u64 : Policy → ℕ → ℕ
unfolding saturating_mul
backoff_u64 policy attempts =
    min (saturating_mul policy.backoff_base_secs (2 ^ min (attempts - 1) 16))
      policy.backoff_cap_secs

-- `as i64`
unfoldable pub as_i64 : ℕ → ℤ
as_i64 n = if ltb n (2 ^ 63) then pos n else negsuc (2 ^ 64 - 1 - n)

unfoldable pub backoff_secs : Policy → ℕ → ℤ
unfolding as_i64 backoff_u64
backoff_secs policy attempts = as_i64 (backoff_u64 policy attempts)

backoff_u64-cap :
    (policy : Policy) (attempts : ℕ) → backoff_u64 policy attempts ≤ policy.backoff_cap_secs
unfolding backoff_u64
backoff_u64-cap policy attempts = ground arith

backoff_u64_mono : (policy : Policy) (m n : ℕ) → m ≤ n → backoff_u64 policy m ≤ backoff_u64 policy n
unfolding backoff_u64 saturating_mul
backoff_u64_mono policy m n h =
    let shift : 2 ^ min (m - 1) 16 ≤ 2 ^ min (n - 1) 16 =
      pow-le-pow_right (omega arith) (ground arith) in
    let scaled = mul-le-mul_left policy.backoff_base_secs shift in ground arith

as_i64-small : (n cap : ℕ) → n ≤ cap → cap < 2 ^ 63 → as_i64 n ≡ pos n
unfolding as_i64
as_i64-small n cap le lt = ground arith

-- Under a cap of less than 2^63 seconds, a delay is not negative and at most the cap, and after
-- more attempts it is no shorter.
pub backoff_secs-bounds :
    (policy : Policy) (m n : ℕ)
    → policy.backoff_cap_secs < 2 ^ 63
    → m ≤ n
    → (a : ℕ) × (b : ℕ) × (backoff_secs policy m ≡ pos a)
      × (backoff_secs policy n ≡ pos b)
      × (a ≤ b)
      × (b ≤ policy.backoff_cap_secs)
unfolding backoff_secs
backoff_secs-bounds policy m n lt le = (
  backoff_u64 policy m,
  backoff_u64 policy n,
  as_i64-small (backoff_u64 policy m) policy.backoff_cap_secs (backoff_u64-cap policy m) lt,
  as_i64-small (backoff_u64 policy n) policy.backoff_cap_secs (backoff_u64-cap policy n) lt,
  backoff_u64_mono policy m n le,
  backoff_u64-cap policy n,
)
