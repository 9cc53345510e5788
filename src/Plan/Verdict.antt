-- ===== src/Plan/Verdict.antt =====
-- What the verdict of a plan says.
use opfs.Prelude.{
  ℕ, ◌≡◌, refl, ◌∙◌, subst, Option, Bool, true, false, not, ◌&&◌, ◌||◌, List, [], ◌∷◌, ◌++◌, arith,
  if◌then◌else◌,
}
use opfs.Failure.{ok, ok-injective, >>=-eq-ok}
use opfs.Adapter.{Adapter}
use opfs.Support.{
  SupportMode, native, emulated, partitioned, unsupported, Support, Optimizations, get_support,
}
use opfs.Plan.{
  PlanInput, read_plan, write_plan, copy_plan, move_plan, Draft, DriverPlan, Plan, Problem, refuse,
  adapter_layer, is_failure, has_failure, refuse_route, conclude, is_unsupported, exceeds,
  known_input, plan_buffer, plan_route, plan_read, plan_write, plan_transfer, warn_move, bound_copy,
  partition_route, start_draft, driver_request, create_plan,
}

has_failure-append :
    (ps : List Problem) (p : Problem)
    → has_failure (ps ++ p ∷ []) ≡ (has_failure ps || is_failure p.severity)
unfolding has_failure
has_failure-append [] p = ground arith
has_failure-append (q ∷ ps) p = ground (arith, has_failure-append ps p)

-- A plan is supported exactly if none of its problems is an error, and its route is then possible.
abbrev pub IsSound : Plan → Type 0
IsSound p =
    (p.supported ≡ not (has_failure p.problems)) × (is_unsupported p.support ≡ not p.supported)

or_true : (b : Bool) → (b || true) ≡ true
or_true true = refl
or_true false = refl

closing : (u h : Bool) → (u ≡ true → h ≡ true) → (not u && not h) ≡ not h
closing u h k = ground arith

refused_by :
    (t : Bool) (x d : Draft)
    → t ≡ is_unsupported d.route
    → has_failure x.problems ≡ true
    → is_unsupported (if t then x else d).route ≡ true
    → has_failure (if t then x else d).problems ≡ true
refused_by true x d e h u = h
refused_by false x d e h u = cc

-- An impossible route is reported as an error.
refused :
    (d : Draft)
    → is_unsupported (refuse_route d).route ≡ true
    → has_failure (refuse_route d).problems ≡ true
unfolding refuse_route
refused d u =
    refused_by (is_unsupported d.route) _ d refl
      (has_failure-append d.problems (refuse "route-unsupported" adapter_layer)
        ∙ or_true (has_failure d.problems))
      u

possible :
    (r : SupportMode) (h : Bool)
    → is_unsupported (if not (is_unsupported r) && not h then r else unsupported)
      ≡ not (not (is_unsupported r) && not h)
possible native true = refl
possible native false = refl
possible emulated true = refl
possible emulated false = refl
possible partitioned true = refl
possible partitioned false = refl
possible unsupported h = refl

conclude-IsSound : (p : DriverPlan) (d : Draft) → IsSound (conclude p (refuse_route d))
unfolding conclude
conclude-IsSound p d = (
  closing (is_unsupported (refuse_route d).route) (has_failure (refuse_route d).problems)
      (refused d),
  possible (refuse_route d).route (has_failure (refuse_route d).problems),
)

-- A plan is supported exactly if none of its problems is an error, and its support is `unsupported`
-- exactly if it is not supported: an impossible route never goes unreported.
pub create_plan-IsSound :
    {S : Type 0} (driver : PlanInput → DriverPlan) (adapter : Adapter S)
    (optimizations : Optimizations) (limit : ℕ) (input : PlanInput) (plan : Plan)
    → create_plan driver adapter optimizations limit input ≡ ok plan
    → IsSound plan
unfolding create_plan
create_plan-IsSound driver adapter optimizations limit input plan e =
    let (request, _, made) = >>=-eq-ok (driver_request input) _ e in
    subst IsSound (ok-injective made) (conclude-IsSound (driver request) _)

within_either :
    (t : Bool) (x d : Draft) (limit : ℕ)
    → exceeds x.buffer_bytes limit ≡ false
    → (t ≡ false → exceeds d.buffer_bytes limit ≡ false)
    → exceeds (if t then x else d).buffer_bytes limit ≡ false
within_either true x d limit h k = h
within_either false x d limit h k = k refl

plan_buffer-within :
    (limit : ℕ) (input : Option ℕ) (d : Draft)
    → exceeds d.buffer_bytes limit ≡ false
    → exceeds (plan_buffer limit input d).buffer_bytes limit ≡ false
unfolding plan_buffer
plan_buffer-within limit input d h = within_either (exceeds input limit) _ _ limit h λ e. e

partition_route-within :
    (p : DriverPlan) (d : Draft) (limit : ℕ)
    → exceeds d.buffer_bytes limit ≡ false
    → exceeds (partition_route p d).buffer_bytes limit ≡ false
unfolding partition_route
partition_route-within p d limit h = within_either _ _ d limit h λ e. h

refuse_route-within :
    (d : Draft) (limit : ℕ)
    → exceeds d.buffer_bytes limit ≡ false
    → exceeds (refuse_route d).buffer_bytes limit ≡ false
unfolding refuse_route
refuse_route-within d limit h = within_either _ _ d limit h λ e. h

warn_move-within :
    (moving : Bool) (d : Draft) (limit : ℕ)
    → exceeds d.buffer_bytes limit ≡ false
    → exceeds (warn_move moving d).buffer_bytes limit ≡ false
unfolding warn_move
warn_move-within moving d limit h = within_either _ _ d limit h λ e. h

bound_copy-within :
    (s : Support) (size : Option ℕ) (d : Draft) (limit : ℕ)
    → exceeds d.buffer_bytes limit ≡ false
    → exceeds (bound_copy s limit size d).buffer_bytes limit ≡ false
unfolding bound_copy
bound_copy-within s size d limit h = within_either _ _ d limit h λ e. h

plan_transfer-within :
    (s : Support) (limit : ℕ) (moving : Bool) (size : Option ℕ) (d : Draft)
    → exceeds d.buffer_bytes limit ≡ false
    → exceeds (plan_transfer s limit moving size d).buffer_bytes limit ≡ false
unfolding plan_transfer
plan_transfer-within s limit moving size d h =
    bound_copy-within s size _ limit (warn_move-within moving _ limit h)

plan_route-within :
    (s : Support) (p : DriverPlan) (limit : ℕ) (input : PlanInput) (d : Draft)
    → exceeds d.buffer_bytes limit ≡ false
    → exceeds (plan_route s p limit input d).buffer_bytes limit ≡ false
unfolding plan_route plan_read plan_write
plan_route-within s p limit (read_plan path size range) d h = within_either _ _ _ limit h λ e. h
plan_route-within s p limit (write_plan path size n source mode) d h =
    partition_route-within p _ limit
      (within_either _ _ _ limit (plan_buffer-within limit (known_input n size mode) _ h) λ e. h)
plan_route-within s p limit (copy_plan path destination size) d h =
    plan_transfer-within s limit false size d h
plan_route-within s p limit (move_plan path destination size) d h =
    plan_transfer-within s limit true size d h

-- The buffer that a plan announces is within the limit.
pub create_plan-within :
    {S : Type 0} (driver : PlanInput → DriverPlan) (adapter : Adapter S)
    (optimizations : Optimizations) (limit : ℕ) (input : PlanInput) (plan : Plan)
    → create_plan driver adapter optimizations limit input ≡ ok plan
    → exceeds plan.buffer_bytes limit ≡ false
unfolding create_plan conclude start_draft
create_plan-within driver adapter optimizations limit input plan e =
    let (request, _, made) = >>=-eq-ok (driver_request input) _ e in
    subst (λ (x : Plan). exceeds x.buffer_bytes limit ≡ false) (ok-injective made)
      (refuse_route-within _ limit (
        plan_route-within (get_support adapter optimizations) (driver request) limit input
          (start_draft (driver request)) refl))
