-- ===== src/Reconciler/Cycles/Settle/Left.antt =====
-- What is left of a runner's report once every tracked record has claimed its item.
use agents_orchestrator.Prelude.{
  String, ◌≡◌, refl, ◌∙◌, ap, inl, inr, true, false, ◌&&◌, Option, none, some, List, [], ◌∷◌, arith,
  Map, lookup, insert, remove, lookup-insert, lookup-remove, member, is_some, if◌then◌else◌, ◌==◌,
  eq_iff, Bool-cases, Option-cases,
}
use agents_orchestrator.Errors.{ok}
use agents_orchestrator.Platform.{Env, Trace, RunnerItem}
use agents_orchestrator.Effect.{Eff}
use agents_orchestrator.Reconciler.Cycles.Group.{keys, reported_items}
use agents_orchestrator.Reconciler.Cycles.Settle.{settle_one, settle_key, settle_keys, settle}

-- The first item of a report that has the key.
abbrev pub first_item : String → List (Option RunnerItem) → Option RunnerItem
first_item k [] = none
first_item k (none ∷ is) = first_item k is
first_item k (some i ∷ is) = if i.key == k then some i else first_item k is

same-lookup {ℓ} : {V : Type ℓ} (k j : String) (m : Map V) → k == j ≡ true → lookup k m ≡ lookup j m
same-lookup k j m h = ap (λ x. lookup x m) ((eq_iff k j).0 h)

abbrev or_else {ℓ} : {A : Type ℓ} → Option A → Option A → Option A
or_else none o = o
or_else (some a) o = some a

pub reported_items-lookup :
    (k : String) (is : List (Option RunnerItem)) (acc : Map RunnerItem)
    → k == "" ≡ false
    → lookup k (reported_items is acc) ≡ or_else (lookup k acc) (first_item k is)
unfolding reported_items
reported_items-lookup k [] acc h = elim (Option-cases (lookup k acc)) [
  | inl e ↦ rw e refl
  | inr (i, e) ↦ rw e refl
]
reported_items-lookup k (none ∷ is) acc h = reported_items-lookup k is acc h
reported_items-lookup k (some i ∷ is) acc h =
    let known = same-lookup i.key k acc in
    let rest = reported_items-lookup k is in
    elim (Bool-cases (i.key == "")) [
      | inl e ↦ rw e (rest acc h ∙ ground (arith, e, h, eq_iff i.key k))
      | inr e ↦ elim (Bool-cases (is_some (lookup i.key acc))) [
        | inl f ↦ rw (e, f) (rest acc h ∙ ground (arith, f, known))
        | inr f ↦
            rw (e, f)
              (rest (insert i.key i acc) h ∙ ground (arith, f, known, lookup-insert i.key k i acc))
      ]
    ]

-- No item is reported without a key.
pub reported_items-unnamed :
    (is : List (Option RunnerItem)) (acc : Map RunnerItem)
    → lookup "" acc ≡ none
    → lookup "" (reported_items is acc) ≡ none
unfolding reported_items
reported_items-unnamed [] acc h = h
reported_items-unnamed (none ∷ is) acc h = reported_items-unnamed is acc h
reported_items-unnamed (some i ∷ is) acc h = elim (Bool-cases (i.key == "")) [
  | inl e ↦ rw e (reported_items-unnamed is acc h)
  | inr e ↦ elim (Bool-cases (is_some (lookup i.key acc))) [
    | inl f ↦ rw (e, f) (reported_items-unnamed is acc h)
    | inr f ↦
        rw (e, f)
          (reported_items-unnamed is (insert i.key i acc)
            (ground (arith, h, e, lookup-insert i.key "" i acc)))
  ]
]

-- A request that ends without an error, whatever the services answer.
abbrev pub Succeeds {ℓ} : {A : Type ℓ} → Eff A → Type ℓ
Succeeds {A = A} m = (env : Env) (t : Trace) → (a : A) × ((m env t).0 ≡ ok a)

lookup-member {ℓ} : {V : Type ℓ} (k : String) (m : Map V) → is_some (lookup k m) ≡ member k (keys m)
lookup-member k [] = refl
lookup-member k ((j, v) ∷ m) = ground (arith, lookup-member k m)

module _ {ℓ} {V S : Type ℓ} (present : S → V → RunnerItem → Eff S) (missing : S → V → Eff S)
    (present-Succeeds : (s : S) (v : V) (i : RunnerItem) → Succeeds (present s v i))
    (missing-Succeeds : (s : S) (v : V) → Succeeds (missing s v)) where
  -- What one key takes out of the report.
  claimed : Map RunnerItem → String → Option V → Map RunnerItem
  claimed items k none = items
  claimed items k (some v) = remove k items

  settle_key-left :
      (items : Map RunnerItem) (s : S) (k : String) (o : Option V) (env : Env) (t : Trace)
      → (left : Map RunnerItem) × (s' : S) × ((settle_key present missing items s k o env t).0
          ≡ ok (left, s'))
        × ((j : String) → lookup j left ≡ (if k == j && is_some o then none else lookup j items))
  unfolding settle_key settle_one
  settle_key-left items s k none env t = (items, s, refl, λ j. ground arith)
  settle_key-left items s k (some v) env t = elim (Option-cases (lookup k items)) [
    | inl h ↦
        let (s', e) = missing-Succeeds s v env t in
        (items, s', rw (h, e) refl, λ j. ground (arith, h, same-lookup k j items))
    | inr (i, h) ↦
        let (s', e) = present-Succeeds s v i env t in
        (remove k items, s', rw (h, e) refl, λ j. ground (arith, lookup-remove k j items))
  ]

  settle_keys-left :
      (tracked : Map V) (ks : List String) (items : Map RunnerItem) (s : S) (env : Env) (t : Trace)
      → (left : Map RunnerItem) × (s' : S) × ((settle_keys present missing tracked ks
            (items, s)
            env
            t).0
          ≡ ok (left, s'))
        × ((j : String)
            → lookup j left
              ≡ (if member j ks && is_some (lookup j tracked) then none else lookup j items))
  unfolding settle_keys
  settle_keys-left tracked [] items s env t = (items, s, refl, λ j. refl)
  settle_keys-left tracked (k ∷ ks) items s env t =
      let one = settle_key present missing items s k (lookup k tracked) in
      let (mid, u, e, first) = settle_key-left items s k (lookup k tracked) env t in
      let (left, s', f, others) = settle_keys-left tracked ks mid u env (one env t).1 in
      (left, s', rw e f, λ j. ground (arith, first j, others j, same-lookup k j tracked))

  pub settle-left :
      (tracked : Map V) (items : Map RunnerItem) (s : S) (env : Env) (t : Trace)
      → ((j : String) → member j (env.visit t (keys tracked)) ≡ member j (keys tracked))
      → (left : Map RunnerItem) × (s' : S) × ((settle present missing tracked items s env t).0
          ≡ ok (left, s'))
        × ((j : String)
            → lookup j left ≡ (if member j (keys tracked) then none else lookup j items))
  unfolding settle
  settle-left tracked items s env t visits =
      let (left, s', e, h) = settle_keys-left tracked (env.visit t (keys tracked)) items s env t in
      (left, s', e, λ j. ground (arith, h j, visits j, lookup-member j tracked))
