-- ===== src/Assembler/Resources.antt =====
-- resources.go: what a workload's containers ask for in all. `milli` and `value` are
-- resource.ParseQuantity with MilliValue and with Value, signed 64-bit numbers.
pub mod Totals
use agents_orchestrator.Prelude.{
  ℕ, ◌+◌, String, Bool, Option, none, some, List, [], ◌∷◌, ℤ, pos, negsuc, ltb, max_int64,
  trim_space, if◌then◌else◌, ◌==◌, ◌&&◌,
}
use agents_orchestrator.Errors.{Result, ok, err, fault, ◌>>=◌}
use agents_orchestrator.Api.{Meta}

-- agents.v1.ComputeResources
pub record ComputeResources : Type 0 where
  pub requests_cpu : String
  pub requests_memory : String

-- mcpAssignment, with the resources of its MCP, if there is one
pub record McpAssignment : Type 0 where
  pub mcp : Option (Option ComputeResources)

-- resourceTotals
pub record ResourceTotals : Type 0 where
  pub cpu_millicores : ℕ
  pub ram_bytes : ℕ

abbrev pub max_int32 : ℕ
max_int32 = 2147483647

-- addInt64; a total is never negative, and its comparison with the rest of the range is written as
-- one of the sum, since subtraction of natural numbers stops at 0.
unfoldable pub add_int64 : ℕ → ℤ → Result ℕ
add_int64 total (negsuc n) = err (fault "%s must be non-negative")
add_int64 total (pos n) =
    if ltb 0 n && ltb max_int64 (total + n) then err (fault "%s overflow") else ok (total + n)

non_negative : ℤ → Result ℤ
non_negative (pos n) = ok (pos n)
non_negative (negsuc n) = err (fault "%s must be non-negative")

-- parseCPUMillicores and parseRAMBytes
unfoldable pub parse_quantity : (String → Option ℤ) → String → Result ℤ
unfolding non_negative
parse_quantity parse value =
    let trimmed = trim_space value in
    if trimmed == ""
    then ok (pos 0)
    else elim (parse trimmed) [ none ↦ err (fault "%s %q: %w") | some v ↦ non_negative v ]

module _ (milli value : String → Option ℤ) where
  -- resourceTotals.add
  unfoldable pub add : ResourceTotals → Option ComputeResources → Result ResourceTotals
  unfolding parse_quantity add_int64
  add t none = ok t
  add t (some r) = parse_quantity milli r.requests_cpu >>= λ cpu.
      parse_quantity value r.requests_memory >>= λ ram. add_int64 t.cpu_millicores cpu >>= λ c.
      add_int64 t.ram_bytes ram >>= λ b. ok (record { cpu_millicores = c; ram_bytes = b })

  add_mcps : ResourceTotals → List McpAssignment → Result ResourceTotals
  unfolding add
  add_mcps t [] = ok t
  add_mcps t (m ∷ ms) = elim m.mcp [
    | none ↦ err (fault "mcp %s missing")
    | some r ↦ add t r >>= λ next. add_mcps next ms
  ]

  within_int32 : ResourceTotals → Result (ℕ × ℕ)
  within_int32 t =
      if ltb max_int32 t.cpu_millicores
      then err (fault "allocated cpu millicores overflow: %d")
      else ok (t.cpu_millicores, t.ram_bytes)

  -- sumAllocatedResources, of an agent's metadata and resources
  unfoldable pub sum_allocated_resources :
      Option Meta → Option ComputeResources → List McpAssignment → Result (ℕ × ℕ)
  unfolding add add_mcps within_int32
  sum_allocated_resources none resources mcps = err (fault "agent meta id missing")
  sum_allocated_resources (some m) resources mcps =
      if m.id == ""
      then err (fault "agent meta id missing")
      else add (record { cpu_millicores = 0; ram_bytes = 0 }) resources >>= λ t.
          add_mcps t mcps >>= λ u. within_int32 u
