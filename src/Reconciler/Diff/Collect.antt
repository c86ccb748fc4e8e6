-- ===== src/Reconciler/Diff/Collect.antt =====
-- What the first loop of ComputeActions has gathered: one entry per agent instance, and the rest.
use agents_orchestrator.Prelude.{
  ℕ, ◌+◌, ap, ◌∙◌, String, ◌≡◌, refl, inl, inr, Bool, Bool-cases, false, Option, none, some, List,
  [], ◌∷◌, arith, ltb, Map, lookup, insert, lookup-insert, All, ◌&&◌, count, count-append,
  if◌then◌else◌, Option-cases, ◌==◌, eq_iff,
}
use agents_orchestrator.Errors.{Result, ok, err, >>=-eq-ok, ok-injective}
use agents_orchestrator.Api.{Workload}
use agents_orchestrator.Uuid.{parse_uuid}
use agents_orchestrator.Reconciler.Diff.{
  WorkloadEntry, Collected, collect, collect_one, place, workload_activity_at,
}

-- Which entry of an instance survives: the one active first, and of two as old the first met.
abbrev pub older : WorkloadEntry → Option WorkloadEntry → Option WorkloadEntry
older e none = some e
older e (some x) = if ltb e.activity_at x.activity_at then some e else some x

abbrev pub present : (Workload → Bool) → Option WorkloadEntry → ℕ
present q none = 0
present q (some x) = if q x.workload then 1 else 0

abbrev pub Distinct : Map WorkloadEntry → Type 0
Distinct [] = Unit
Distinct ((k, e) ∷ m) = (lookup k m ≡ none) × Distinct m

insert-Distinct :
    (k : String) (e : WorkloadEntry) (m : Map WorkloadEntry) → Distinct m → Distinct (insert k e m)
insert-Distinct k e [] d = (refl, tt)
insert-Distinct k e ((j, x) ∷ m) d = elim (Bool-cases (j == k)) [
  | inl same ↦ rw same d
  | inr differ ↦
      rw differ
        (ground (arith, lookup-insert k j e m, eq_iff j k, eq_iff k j), insert-Distinct k e m d.1)
]

abbrev pub or_zero : Result ℕ → ℕ
or_zero (ok t) = t
or_zero (err e) = 0

abbrev pub names : Result String → String → Bool
names (ok j) i = j == i
names (err e) i = false

module _ (parse : String → Option String) where
  -- The workload belongs to the agent instance `i`.
  abbrev pub is_of : String → Workload → Bool
  is_of i w = names (parse_uuid parse w.agent_instance_id) i

  -- It does, and passes the test `q`.
  abbrev pub chosen : (Workload → Bool) → String → Workload → Bool
  chosen q i w = is_of i w && q w

  abbrev pub KeyedBy : String × WorkloadEntry → Type 0
  KeyedBy kv = parse_uuid parse kv.1.workload.agent_instance_id ≡ ok kv.0

  insert-KeyedBy :
      (k : String) (e : WorkloadEntry) (m : Map WorkloadEntry)
      → KeyedBy (k, e)
      → All KeyedBy m
      → All KeyedBy (insert k e m)
  insert-KeyedBy k e [] h a = (h, tt)
  insert-KeyedBy k e ((j, x) ∷ m) h a = elim (Bool-cases (j == k)) [
    | inl same ↦ rw same (rw (← (eq_iff j k).0 same) at h, a.1)
    | inr differ ↦ rw differ (a.0, insert-KeyedBy k e m h a.1)
  ]

  lookup-KeyedBy :
      (k : String) (e : WorkloadEntry) (m : Map WorkloadEntry)
      → All KeyedBy m
      → lookup k m ≡ some e
      → KeyedBy (k, e)
  lookup-KeyedBy k e [] a h = cc
  lookup-KeyedBy k e ((j, x) ∷ m) a h = elim (Bool-cases (j == k)) [
    | inl same ↦ ground (arith, (eq_iff j k).0 same)
    | inr differ ↦ lookup-KeyedBy k e m a.1 (rw differ at h)
  ]

  place-lookup :
      (i id : String) (e : WorkloadEntry) (c : Collected)
      → lookup i (place id e c (lookup id c.actual_set)).actual_set
        ≡ (if id == i then older e (lookup i c.actual_set) else lookup i c.actual_set)
  unfolding place
  place-lookup i id e c = elim (Option-cases (lookup id c.actual_set)) [
    | inl absent ↦ rw absent (ground (arith, lookup-insert id i e c.actual_set, eq_iff id i))
    | inr (x, found) ↦ rw found (ground (arith, lookup-insert id i e c.actual_set, eq_iff id i))
  ]

  pub record IsIndexed (c : Collected) : Type 0 where
    pub keyed : All KeyedBy c.actual_set
    pub distinct : Distinct c.actual_set

  place-IsIndexed :
      (id : String) (e : WorkloadEntry) (c : Collected)
      → KeyedBy (id, e)
      → IsIndexed c
      → IsIndexed (place id e c (lookup id c.actual_set))
  unfolding place
  place-IsIndexed id e c h v = elim (Option-cases (lookup id c.actual_set)) [
    | inl absent ↦ rw absent (record {
      keyed = insert-KeyedBy id e c.actual_set h v.keyed;
      distinct = insert-Distinct id e c.actual_set v.distinct;
    })
    | inr (x, found) ↦ elim (Bool-cases (ltb e.activity_at x.activity_at)) [
      | inl newer ↦
          rw (found, place, newer)
            (record {
              keyed = insert-KeyedBy id e c.actual_set h v.keyed;
              distinct = insert-Distinct id e c.actual_set v.distinct;
            })
      | inr kept ↦ rw (found, place, kept) (record { keyed = v.keyed; distinct = v.distinct })
    ]
  ]

  -- A round puts one workload more among the entry and the duplicates of its instance.
  place-count :
      (q : Workload → Bool) (i id : String) (e : WorkloadEntry) (c : Collected)
      → KeyedBy (id, e)
      → IsIndexed c
      → let c' = place id e c (lookup id c.actual_set) in
        count (chosen q i) c'.duplicates + present q (lookup i c'.actual_set)
        ≡ (if id == i && q e.workload then 1 else 0)
          + (count (chosen q i) c.duplicates + present q (lookup i c.actual_set))
  unfolding place
  place-count q i id e c h v = elim (Option-cases (lookup id c.actual_set)) [
    | inl absent ↦ rw absent (ground (arith, lookup-insert id i e c.actual_set, eq_iff id i))
    | inr (x, found) ↦ rw found (
        ground (
          arith,
          lookup-insert id i e c.actual_set,
          eq_iff id i,
          lookup-KeyedBy id x c.actual_set v.keyed found,
          count-append (chosen q i) c.duplicates (x.workload ∷ []),
          count-append (chosen q i) c.duplicates (e.workload ∷ []),
        ))
  ]

  -- The entry that should survive for `i`, read off the list of workloads alone.
  abbrev pub oldest : String → List Workload → Option WorkloadEntry → Option WorkloadEntry
  oldest i [] found = found
  oldest i (w ∷ ws) found = oldest i ws (
      if is_of i w
      then older (record { workload = w; activity_at = or_zero (workload_activity_at w) }) found
      else found)

  pub record Gathers (q : Workload → Bool) (i : String) (ws : List Workload) (c c' : Collected)
      : Type 0 where
    pub indexed : IsIndexed c'
    pub survivor : lookup i c'.actual_set ≡ oldest i ws (lookup i c.actual_set)
    pub counts :
        count (chosen q i) c'.duplicates + present q (lookup i c'.actual_set)
        ≡ count (chosen q i) ws
          + (count (chosen q i) c.duplicates + present q (lookup i c.actual_set))

  place-Gathers :
      (q : Workload → Bool) (i id : String) (t : ℕ) (w : Workload) (c : Collected)
      → IsIndexed c
      → parse_uuid parse w.agent_instance_id ≡ ok id
      → workload_activity_at w ≡ ok t
      → Gathers q i
          (w ∷ [])
          c
          (place id (record { workload = w; activity_at = t }) c (lookup id c.actual_set))
  place-Gathers q i id t w c v parsed dated =
      let e : WorkloadEntry = record { workload = w; activity_at = t } in
      record {
        indexed = place-IsIndexed id e c parsed v;
        survivor = rw (parsed, dated) (place-lookup i id e c);
        counts = rw parsed (omega (arith, place-count q i id e c parsed v));
      }

  collect_one-Gathers :
      (q : Workload → Bool) (i : String) (w : Workload) (c c' : Collected)
      → IsIndexed c
      → collect_one parse w c ≡ ok c'
      → Gathers q i (w ∷ []) c c'
  unfolding collect_one
  collect_one-Gathers q i w c c' v h =
      let (id, parsed, h₁) = >>=-eq-ok (parse_uuid parse w.agent_instance_id) _ h in
      let (t, dated, h₂) = >>=-eq-ok (workload_activity_at w) _ h₁ in
      rw (ok-injective h₂) at (place-Gathers q i id t w c v parsed dated)

  -- The whole loop: one entry per instance, the oldest, and every other workload a duplicate.
  pub collect-Gathers :
      (q : Workload → Bool) (i : String) (ws : List Workload) (c c' : Collected)
      → IsIndexed c
      → collect parse ws c ≡ ok c'
      → Gathers q i ws c c'
  unfolding collect
  collect-Gathers q i [] c c' v h =
      rw (← ok-injective h) (record { indexed = v; survivor = refl; counts = omega arith })
  collect-Gathers q i (w ∷ ws) c c' v h =
      let (m, first, h₁) = >>=-eq-ok (collect_one parse w c) _ h in
      let g = collect_one-Gathers q i w c m v first in
      let r = collect-Gathers q i ws m c' g.indexed h₁ in
      record {
        indexed = r.indexed;
        survivor = r.survivor ∙ ap (oldest i ws) g.survivor;
        counts = omega (arith, r.counts, g.counts);
      }
