-- ===== src/Request/Policy.antt =====
-- The policies that are accepted.
use opfs.Prelude.{ℕ, ◌≤◌, ◌≡◌, refl, Option, arith}
use opfs.Failure.{Result, ok, throw}
use opfs.Request.{
  RequestPolicy, ResolvedPolicy, get_request_policy, integer, checked, max_safe_integer,
}

integer-eq_ok :
    (value : Option ℕ) (fallback minimum : ℕ) {n : ℕ}
    → integer value fallback minimum ≡ ok n
    → (minimum ≤ n) × (n ≤ max_safe_integer)
unfolding integer
integer-eq_ok value fallback minimum h = ground arith

checked-eq_ok :
    {A : Type 0} (r : Result ℕ) (next : ℕ → Result A) {a : A}
    → checked r next ≡ ok a
    → (n : ℕ) × (r ≡ ok n) × (next n ≡ ok a)
checked-eq_ok (throw e) next h = cc
checked-eq_ok (ok n) next h = (n, refl, h)

-- A policy that is accepted has an order between its delays and only safe integers: the shortest delay
-- is not above the longest, and that one and the number of retries are safe integers.
pub get_request_policy-bounds :
    (policy : RequestPolicy) (resolved : ResolvedPolicy)
    → get_request_policy policy ≡ ok resolved
    → (resolved.min_delay_ms ≤ resolved.max_delay_ms)
      × (resolved.max_delay_ms ≤ max_safe_integer)
      × (resolved.retries ≤ max_safe_integer)
unfolding get_request_policy
get_request_policy-bounds policy resolved h =
    let (count, c, h1) = checked-eq_ok (integer policy.retries 3 0) _ h in
    let (low, l, h2) = checked-eq_ok (integer policy.min_delay_ms 200 0) _ h1 in
    let (high, u, h3) = checked-eq_ok (integer policy.max_delay_ms 20_000 low) _ h2 in
    let p = integer-eq_ok policy.retries 3 0 c in
    let q = integer-eq_ok policy.max_delay_ms 20_000 low u in grind arith
