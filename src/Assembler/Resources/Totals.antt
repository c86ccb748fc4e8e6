-- ===== src/Assembler/Resources/Totals.antt =====
-- The allocation is the sum of what is asked for, and fits its fields.
use agents_orchestrator.Prelude.{
  ℕ, ◌+◌, ◌≤◌, String, ◌≡◌, ap, inl, inr, Option, none, some, List, [], ◌∷◌, arith, ℤ, pos, negsuc,
  max_int64, ◌==◌, Bool-cases, Option-cases,
}
use agents_orchestrator.Errors.{Result, ok, ◌>>=◌, >>=-eq-ok, ok-injective}
use agents_orchestrator.Api.{Meta}
use agents_orchestrator.Assembler.Resources.{
  ComputeResources, McpAssignment, ResourceTotals, max_int32, add_int64, parse_quantity, add,
  add_mcps, within_int32, sum_allocated_resources,
}

abbrev number : Result ℤ → ℕ
number (ok (pos n)) = n
number _ = 0

add_int64-adds :
    (total next : ℕ) (v : ℤ)
    → total ≤ max_int64
    → add_int64 total v ≡ ok next
    → (next ≡ total + number (ok v)) × (next ≤ max_int64)
unfolding add_int64
add_int64-adds total next (negsuc n) h e = cc
add_int64-adds total next (pos n) h e = ground (arith, e)

module _ (milli value : String → Option ℤ) where
  -- What one container asks for, nothing where it says nothing.
  abbrev pub cpu_of : Option ComputeResources → ℕ
  cpu_of none = 0
  cpu_of (some r) = number (parse_quantity milli r.requests_cpu)

  abbrev pub ram_of : Option ComputeResources → ℕ
  ram_of none = 0
  ram_of (some r) = number (parse_quantity value r.requests_memory)

  abbrev pub mcps_ask : (Option ComputeResources → ℕ) → List McpAssignment → ℕ
  mcps_ask f [] = 0
  mcps_ask f (m ∷ ms) = (elim m.mcp [ none ↦ 0 | some r ↦ f r ]) + mcps_ask f ms

  Fits : ResourceTotals → Type 0
  Fits t = (t.cpu_millicores ≤ max_int64) × (t.ram_bytes ≤ max_int64)

  add-adds :
      (t u : ResourceTotals) (r : Option ComputeResources)
      → Fits t
      → add milli value t r ≡ ok u
      → (u.cpu_millicores ≡ t.cpu_millicores + cpu_of r)
        × (u.ram_bytes ≡ t.ram_bytes + ram_of r)
        × Fits u
  unfolding add Fits
  add-adds t u none h e = rw (← ok-injective e) (omega arith, omega arith, h)
  add-adds t u (some r) h e =
      let (cpu, e₁, h₁) = >>=-eq-ok (parse_quantity milli r.requests_cpu) _ e in
      let (ram, e₂, h₂) = >>=-eq-ok (parse_quantity value r.requests_memory) _ h₁ in
      let (c, e₃, h₃) = >>=-eq-ok (add_int64 t.cpu_millicores cpu) _ h₂ in
      let (b, e₄, h₄) = >>=-eq-ok (add_int64 t.ram_bytes ram) _ h₃ in
      let (same_c, fits_c) = add_int64-adds t.cpu_millicores c cpu h.0 e₃ in
      let (same_b, fits_b) = add_int64-adds t.ram_bytes b ram h.1 e₄ in
      let uc = ap (λ x. x.cpu_millicores) (ok-injective h₄) in
      let ub = ap (λ x. x.ram_bytes) (ok-injective h₄) in
      (
        omega (arith, uc, same_c, ap number e₁),
        omega (arith, ub, same_b, ap number e₂),
        (omega (arith, uc, fits_c), omega (arith, ub, fits_b)),
      )

  add_mcps-adds :
      (t u : ResourceTotals) (ms : List McpAssignment)
      → Fits t
      → add_mcps milli value t ms ≡ ok u
      → (u.cpu_millicores ≡ t.cpu_millicores + mcps_ask cpu_of ms)
        × (u.ram_bytes ≡ t.ram_bytes + mcps_ask ram_of ms)
        × Fits u
  unfolding add_mcps Fits
  add_mcps-adds t u [] h e = rw (← ok-injective e) (omega arith, omega arith, h)
  add_mcps-adds t u (m ∷ ms) h e = elim (Option-cases m.mcp) [
    | inl k ↦ absurd (ground (arith, rw (k, add_mcps) at e))
    | inr (r, k) ↦
        let (next, e₁, h₁) =
          >>=-eq-ok (add milli value t r) (λ next. add_mcps milli value next ms)
            (rw (k, add_mcps) at e) in
        let (c, b, fits) = add-adds t next r h e₁ in
        let (cs, bs, fits') = add_mcps-adds next u ms fits h₁ in
        rw k (omega (arith, c, cs), omega (arith, b, bs), fits')
  ]

  -- If an allocation is made, then it is, for processor and memory each, the sum of what the agent
  -- and its MCPs ask for, and fits the 32 and 64 bits of its fields: nothing wraps around.
  pub allocation_is_sum :
      (m : Option Meta) (resources : Option ComputeResources) (mcps : List McpAssignment)
      (cpu ram : ℕ)
      → sum_allocated_resources milli value m resources mcps ≡ ok (cpu, ram)
      → (cpu ≡ cpu_of resources + mcps_ask cpu_of mcps)
        × (ram ≡ ram_of resources + mcps_ask ram_of mcps)
        × (cpu ≤ max_int32)
        × (ram ≤ max_int64)
  unfolding sum_allocated_resources within_int32 Fits
  allocation_is_sum none resources mcps cpu ram e = cc
  allocation_is_sum (some m) resources mcps cpu ram e = elim (Bool-cases (m.id == "")) [
    | inl k ↦ absurd (ground (arith, rw (k, sum_allocated_resources) at e))
    | inr k ↦
        let none_yet : ResourceTotals = record { cpu_millicores = 0; ram_bytes = 0 } in
        let (t, e₁, h₁) =
          >>=-eq-ok (add milli value none_yet resources)
            (λ t. add_mcps milli value t mcps >>= λ u. within_int32 milli value u)
            (rw (k, sum_allocated_resources) at e) in
        let (u, e₂, h₂) = >>=-eq-ok (add_mcps milli value t mcps) (within_int32 milli value) h₁ in
        let (c, b, fits) = add-adds none_yet t resources (omega arith, omega arith) e₁ in
        let (cs, bs, fits') = add_mcps-adds t u mcps fits e₂ in
        ground (arith, h₂, c, b, cs, bs, fits'.1)
  ]
