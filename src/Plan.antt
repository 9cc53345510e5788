-- ===== src/Plan.antt =====
-- Preflight planning (`createPlan` of src/plan.ts). What a driver answers to a normalised request is a
-- parameter. Messages are left out, and sizes are natural numbers.
use opfs.Prelude.{
  ℕ, Option, none, some, Bool, true, false, not, ◌&&◌, ◌||◌, List, [], ◌∷◌, ◌++◌, Text, String, ltb,
  if◌then◌else◌,
}
use opfs.Failure.{Result, ok, throw, ◌>>=◌}
use opfs.Bytes.{WriteMode, replace, append, update}
use opfs.Path.{normalize_path}
use opfs.Adapter.{Adapter}
use opfs.Support.{
  SupportMode, native, emulated, partitioned, unsupported, Support, Optimizations, get_support,
}
pub mod Verdict
pub mod Tests

pub data WriteSource : Type 0 where
  bytes_source stream_source : WriteSource

-- `ResolvedPlanInputType`.
pub data PlanInput : Type 0 where
  read_plan : Option Text → Option ℕ → Bool → PlanInput
  write_plan : Option Text → Option ℕ → Option ℕ → WriteSource → WriteMode → PlanInput
  copy_plan : Option Text → Option Text → Option ℕ → PlanInput
  move_plan : Option Text → Option Text → Option ℕ → PlanInput

pub data Severity : Type 0 where
  information warning failure : Severity

pub data Layer : Type 0 where
  client_layer driver_layer adapter_layer filesystem_layer : Layer

pub record Problem : Type 0 where
  pub code : String
  pub layer : Layer
  pub severity : Severity

-- The kinds of `ActionType`.
abbrev pub Action : Type 0
Action = String

-- `DriverPlanType`, less the operation. `createPlan` does not read `supported`.
pub record DriverPlan : Type 0 where
  pub supported : Bool
  pub support : SupportMode
  pub part_bytes : Option ℕ
  pub parts : Option ℕ
  pub problems : List Problem
  pub actions : List Action

pub record Plan : Type 0 where
  pub supported : Bool
  pub support : SupportMode
  pub driver : DriverPlan
  pub buffer_bytes : Option ℕ
  pub problems : List Problem
  pub actions : List Action

-- The locals of `createPlan`.
pub record Draft : Type 0 where
  pub route : SupportMode
  pub buffer_bytes : Option ℕ
  pub problems : List Problem
  pub actions : List Action

abbrev pub warn : String → Problem
warn code = record { code = code; layer = filesystem_layer; severity = warning }

abbrev pub refuse : String → Layer → Problem
refuse code layer = record { code = code; layer = layer; severity = failure }

abbrev pub is_unsupported : SupportMode → Bool
is_unsupported unsupported = true
is_unsupported native = false
is_unsupported emulated = false
is_unsupported partitioned = false

abbrev pub is_emulated : SupportMode → Bool
is_emulated emulated = true
is_emulated native = false
is_emulated partitioned = false
is_emulated unsupported = false

abbrev pub is_partitioned : SupportMode → Bool
is_partitioned partitioned = true
is_partitioned native = false
is_partitioned emulated = false
is_partitioned unsupported = false

abbrev pub is_native : SupportMode → Bool
is_native native = true
is_native partitioned = false
is_native emulated = false
is_native unsupported = false

-- Whether a size is known and above the limit.
abbrev pub exceeds : Option ℕ → ℕ → Bool
exceeds none limit = false
exceeds (some n) limit = ltb limit n

abbrev pub with_problem : Draft → Problem → Draft
with_problem d p = record d { problems = d.problems ++ p ∷ [] }

unfoldable pub plan_read : Support → Bool → Draft → Draft
plan_read s range d =
    let route = if range then s.range_read else s.read in
    if range && is_emulated route
    then with_problem (record d { route = route }) (warn "range-materialized")
    else record d { route = route }

-- `request.inputBytes ?? (request.mode === "replace" ? request.size : undefined)`.
abbrev pub known_input : Option ℕ → Option ℕ → WriteMode → Option ℕ
known_input (some n) size mode = some n
known_input none size replace = size
known_input none size append = none
known_input none size update = none

-- A stream on the emulated route, which the facade buffers.
unfoldable pub plan_buffer : ℕ → Option ℕ → Draft → Draft
plan_buffer limit input d =
    if exceeds input limit
    then record d {
      route = unsupported;
      problems = d.problems ++ refuse "buffer-too-large" filesystem_layer ∷ [];
      actions = d.actions ++ "reduce-input" ∷ "select-driver" ∷ [];
    }
    else record d { buffer_bytes = input; problems = d.problems ++ warn "stream-buffered" ∷ [] }

abbrev pub is_stream : WriteSource → Bool
is_stream stream_source = true
is_stream bytes_source = false

-- The driver's partitioned layout decides the route of a write that is possible.
unfoldable pub partition_route : DriverPlan → Draft → Draft
partition_route p d =
    if is_partitioned p.support && not (is_unsupported d.route)
    then record d { route = partitioned }
    else d

unfoldable pub plan_write :
    Support → DriverPlan → ℕ → Option ℕ → Option ℕ → WriteSource → WriteMode → Draft → Draft
plan_write s p limit size input source mode d =
    let route = if is_stream source then s.stream_write mode else s.write in
    let e = record d { route = route } in
    partition_route p (
      if is_stream source && is_emulated route
      then plan_buffer limit (known_input input size mode) e
      else e)

-- Whether a copy can go from a stream to a stream.
abbrev pub can_stream : Support → Bool
can_stream s =
    is_native s.stream_read
    && (is_native (s.stream_write replace) || is_partitioned (s.stream_write replace))

unfoldable pub warn_move : Bool → Draft → Draft
warn_move moving d =
    if moving && is_emulated d.route then with_problem d (warn "move-not-atomic") else d

unfoldable pub bound_copy : Support → ℕ → Option ℕ → Draft → Draft
bound_copy s limit size d =
    if is_emulated d.route && exceeds size limit && not (can_stream s)
    then record d {
      route = unsupported;
      problems = d.problems ++ refuse "copy-buffer-too-large" filesystem_layer ∷ [];
      actions = d.actions ++ "select-driver" ∷ [];
    }
    else d

unfoldable pub plan_transfer : Support → ℕ → Bool → Option ℕ → Draft → Draft
plan_transfer s limit moving size d =
    bound_copy s limit size
      (warn_move moving (record d { route = if moving then s.move else s.copy }))

unfoldable pub plan_route : Support → DriverPlan → ℕ → PlanInput → Draft → Draft
plan_route s p limit (read_plan path size range) d = plan_read s range d
plan_route s p limit (write_plan path size input source mode) d =
    plan_write s p limit size input source mode d
plan_route s p limit (copy_plan path destination size) d = plan_transfer s limit false size d
plan_route s p limit (move_plan path destination size) d = plan_transfer s limit true size d

unfoldable pub refuse_route : Draft → Draft
refuse_route d =
    if is_unsupported d.route
    then record d {
      problems = d.problems ++ refuse "route-unsupported" adapter_layer ∷ [];
      actions = d.actions ++ "select-driver" ∷ [];
    }
    else d

-- `problems.some((value) => value.severity === "error")`.
abbrev pub is_failure : Severity → Bool
is_failure failure = true
is_failure warning = false
is_failure information = false

unfoldable pub has_failure : List Problem → Bool
has_failure [] = false
has_failure (p ∷ ps) = is_failure p.severity || has_failure ps

unfoldable pub conclude : DriverPlan → Draft → Plan
conclude p d =
    let supported = not (is_unsupported d.route) && not (has_failure d.problems) in
    record {
      supported = supported;
      support = if supported then d.route else unsupported;
      driver = p;
      buffer_bytes = d.buffer_bytes;
      problems = d.problems;
      actions = d.actions;
    }

-- An optional path, normalised.
unfoldable pub normalize_optional : Option Text → Result (Option Text)
normalize_optional none = ok none
normalize_optional (some path) = do normal ← normalize_path path; ok (some normal)

-- What the driver is asked (`getDriverPlan`).
unfoldable pub driver_request : PlanInput → Result PlanInput
driver_request (read_plan path size range) = do
  p ← normalize_optional path
  ok (read_plan p size range)
driver_request (write_plan path size input source mode) = do
  p ← normalize_optional path
  ok (write_plan p size input source mode)
driver_request (copy_plan path destination size) = do
  p ← normalize_optional path
  q ← normalize_optional destination
  ok (copy_plan p q size)
driver_request (move_plan path destination size) = do
  p ← normalize_optional path
  q ← normalize_optional destination
  ok (move_plan p q size)

unfoldable pub start_draft : DriverPlan → Draft
start_draft p = record {
  route = unsupported;
  buffer_bytes = none;
  problems = p.problems;
  actions = p.actions;
}

unfoldable pub create_plan :
    {S : Type 0}
    → (PlanInput → DriverPlan)
    → Adapter S
    → Optimizations
    → ℕ
    → PlanInput
    → Result Plan
create_plan driver adapter optimizations limit input = do
  request ← driver_request input
  let p = driver request in
      ok (
        conclude p (
          refuse_route
            (plan_route (get_support adapter optimizations) p limit input (start_draft p))))
