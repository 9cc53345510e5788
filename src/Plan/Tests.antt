-- ===== src/Plan/Tests.antt =====
-- A stream that must be buffered, below the limit and above it.
use opfs.Prelude.{◌≡◌, refl, none, some, true, false, []}
use opfs.Failure.{ok}
use opfs.Bytes.{append}
use opfs.Adapter.{Adapter}
use opfs.Support.{native, native_or, Optimizations, get_support}
use opfs.Record.{Base64}
use opfs.Record.Operations.{record_adapter, capabilities}
use opfs.Record.Memory.{Records, memory_driver}
use opfs.Plan.{
  PlanInput, write_plan, stream_source, DriverPlan, Plan, exceeds, create_plan, conclude,
  refuse_route, plan_route, start_draft, driver_request, normalize_optional, read_plan, plan_read,
  has_failure,
}
use opfs.Plan.Verdict.{IsSound, create_plan-IsSound, create_plan-within}

abbrev bare : Base64
bare = record { encode = λ b. b; decode = λ t. ok t; decode-encode = λ b. refl }

abbrev plain_adapter : Adapter Records
plain_adapter = record_adapter bare 7 false memory_driver none

abbrev all_routes : Optimizations
all_routes = record {
  stream_read = true;
  stream_write = true;
  range_read = true;
  native_copy = true;
  native_move = true;
}

abbrev willing : PlanInput → DriverPlan
willing = λ input. record {
  supported = true;
  support = native;
  part_bytes = none;
  parts = none;
  problems = [];
  actions = [];
}

abbrev small_stream : PlanInput
small_stream = write_plan none none (some 5) stream_source append

-- The plan for a stream of five bytes, at a limit of eight.
abbrev drafted : Plan
drafted = conclude (willing small_stream) (
    refuse_route (
      plan_route (get_support plain_adapter all_routes) (willing small_stream) 8 small_stream
        (start_draft (willing small_stream))))

drafted_made : create_plan willing plain_adapter all_routes 8 small_stream ≡ ok drafted
unfolding create_plan driver_request normalize_optional
drafted_made = refl

create_plan-IsSound_example : IsSound drafted
create_plan-IsSound_example =
    create_plan-IsSound willing plain_adapter all_routes 8 small_stream drafted drafted_made

create_plan-within_example : exceeds drafted.buffer_bytes 8 ≡ false
create_plan-within_example =
    create_plan-within willing plain_adapter all_routes 8 small_stream drafted drafted_made

-- A driver that refuses a request without an error among its problems, as the planner in the example of
-- `defineDriver` (src/driver/definition.ts) does: the combined plan does not look at the refusal.
abbrev refusing : PlanInput → DriverPlan
refusing = λ input. record {
  supported = false;
  support = native;
  part_bytes = none;
  parts = none;
  problems = [];
  actions = [];
}

abbrev whole_read : PlanInput
whole_read = read_plan none (some 70000) false

abbrev overruled : Plan
overruled = conclude (refusing whole_read) (
    refuse_route (
      plan_route (get_support plain_adapter all_routes) (refusing whole_read) 8 whole_read
        (start_draft (refusing whole_read))))

overruled_made :
    (create_plan refusing plain_adapter all_routes 8 whole_read ≡ ok overruled)
    × (overruled.driver.supported ≡ false)
    × (overruled.supported ≡ true)
unfolding create_plan driver_request normalize_optional conclude refuse_route plan_route start_draft
    get_support capabilities record_adapter memory_driver plan_read has_failure native_or
overruled_made = (refl, refl, refl)
