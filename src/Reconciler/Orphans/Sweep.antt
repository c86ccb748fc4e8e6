-- ===== src/Reconciler/Orphans/Sweep.antt =====
-- Which identities a sweep asks to delete.
use agents_orchestrator.Prelude.{
  ℕ, zero, suc, ◌+◌, ◌≤◌, String, ◌≡◌, refl, ap, ◌∙◌, inl, inr, Bool, true, false, not, ◌&&◌,
  Option, none, some, List, [], ◌∷◌, ◌++◌, arith, length, count, count-append, Time, pos, minute,
  ltb, time_sub, time_sub-ge, ltb_ℤ, member, ◌==◌, eq_iff, if◌then◌else◌, Bool-cases,
}
use agents_orchestrator.Errors.{Error, ok}
use agents_orchestrator.Platform.{Event, Trace, Env, Page, IdentityType, ManagedIdentity}
use agents_orchestrator.Platform
use agents_orchestrator.Reconciler.Listings.Joins.{Serves, join}
use agents_orchestrator.Reconciler.Orphans.{
  identity_within_create_grace, keep_first, sweep_one, sweep_page, sweep_pages, conclude_sweep,
  sweep_orphan_identities,
}

-- A request to delete this identity.
abbrev pub deletes : String → Event → Bool
deletes id (Event.delete_identity j _) = j == id
deletes id _ = false

-- Made less than a minute ago.
abbrev pub is_young : Time → Option Time → Bool
is_young now none = false
is_young now (some t) = ltb now (t + minute)

-- The listed identity is this one, no active workload has it, and it is not young.
abbrev pub is_orphan : List String → Time → String → Option ManagedIdentity → Bool
is_orphan active now id none = false
is_orphan active now id (some i) =
    i.ziti_identity_id == id && not (member id active) && not (is_young now i.created_at)

-- A listed identity with an id.
abbrev pub is_named : Option ManagedIdentity → Bool
is_named none = false
is_named (some i) = not (i.ziti_identity_id == "")

abbrev pub all_named : List (Option ManagedIdentity) → Bool
all_named [] = true
all_named (i ∷ is) = is_named i && all_named is

grace-young :
    (i : ManagedIdentity) (now : Time)
    → identity_within_create_grace i now ≡ is_young now i.created_at
unfolding identity_within_create_grace
grace-young i now = from i.created_at
  where
    from :
        (o : Option Time)
        → (elim o [ none ↦ false | some t ↦ ltb_ℤ (time_sub now t) (pos minute) ]) ≡ is_young now o
    from none = refl
    from (some t) = time_sub-ge now t minute (omega arith)

all_named-append :
    (xs ys : List (Option ManagedIdentity)) → all_named (xs ++ ys) ≡ (all_named xs && all_named ys)
all_named-append [] ys = refl
all_named-append (x ∷ xs) ys = ground (arith, all_named-append xs ys)

module _ (active : List String) (now : Time) (id : String) where
  abbrev wanted : List (Option ManagedIdentity) → ℕ
  wanted is = count (is_orphan active now id) is

  member-same : (j : String) → j == id ≡ true → member j active ≡ member id active
  member-same j h = ap (λ k. member k active) ((eq_iff j id).0 h)

  sweep_one-deletes :
      (first : Option Error) (i : ManagedIdentity) (env : Env) (t : Trace)
      → (next : Option Error) × ((sweep_one active now first i env t).0 ≡ ok next)
        × (count (deletes id) (sweep_one active now first i env t).1
            ≡ (if is_orphan active now id (some i) then 1 else 0) + count (deletes id) t)
  unfolding sweep_one Platform.delete_identity
  sweep_one-deletes first i env t =
      let young = grace-young i now in
      let same = member-same i.ziti_identity_id in
      let others = count (deletes id) t in
      let named : member i.ziti_identity_id active ≡ true
          → others ≡ (if is_orphan active now id (some i) then 1 else 0) + others =
        λ h. ground (arith, h, same) in
      let tested : member i.ziti_identity_id active ≡ false
          → (if i.ziti_identity_id == id then 1 else 0) + others
            ≡ (if i.ziti_identity_id == id && not (member id active) && true then 1 else 0)
              + others =
        λ h. ground (arith, h, same) in
      elim (Bool-cases (member i.ziti_identity_id active)) [
        | inl h ↦ (first, rw h refl, rw h (named h))
        | inr h ↦ elim (Bool-cases (is_young now i.created_at)) [
          | inl k ↦ (first, rw (h, young, k) refl, rw (h, young, k) (ground arith))
          | inr k ↦ (
            keep_first first (env.delete_identity t i.ziti_identity_id),
            rw (h, young, k) refl,
            rw (h, young, k) (tested h),
          )
        ]
      ]

  sweep_page-deletes :
      (first : Option Error) (is : List (Option ManagedIdentity)) (env : Env) (t : Trace)
      → all_named is ≡ true
      → (next : Option Error) × ((sweep_page active now first is env t).0 ≡ ok next)
        × (count (deletes id) (sweep_page active now first is env t).1
            ≡ wanted is + count (deletes id) t)
  unfolding sweep_page
  sweep_page-deletes first [] env t h = (first, refl, omega arith)
  sweep_page-deletes first (none ∷ is) env t h = absurd (ground arith)
  sweep_page-deletes first (some i ∷ is) env t h = elim (Bool-cases (i.ziti_identity_id == "")) [
    | inl blank ↦ absurd (ground arith)
    | inr present ↦
        let (next, e, one) = sweep_one-deletes first i env t in
        let (last, f, others) =
          sweep_page-deletes next is env (sweep_one active now first i env t).1 (ground arith) in
        (last, rw (present, e) f, rw (present, e) (omega (arith, one, others)))
  ]

  conclude_sweep-trace :
      (o : Option Error) (env : Env) (t : Trace) → (conclude_sweep active now o env t).1 ≡ t
  unfolding conclude_sweep
  conclude_sweep-trace none env t = refl
  conclude_sweep-trace (some e) env t = refl

  sweep_pages-deletes :
      (fuel : ℕ) (kind : IdentityType) (token : String) (first : Option Error)
      (p : List (Option ManagedIdentity)) (rest : List (List (Option ManagedIdentity))) (env : Env)
      (t : Trace)
      → Serves (Platform.list_identities kind) env token p rest
      → length rest ≤ fuel
      → all_named (join p rest) ≡ true
      → count (deletes id) (sweep_pages active now (suc fuel) kind token first env t).1
        ≡ wanted (join p rest) + count (deletes id) t
  unfolding sweep_pages Serves Platform.list_identities
  sweep_pages-deletes fuel kind token first p [] env t h k named =
      let (next, e, n) =
        sweep_page-deletes first p env
          (Event.list_identities kind token (ok (record { items = p; next = "" })) ∷ t) named in
      rw (h t, e) (ap (count (deletes id)) (conclude_sweep-trace next env _) ∙ n ∙ omega arith)
  sweep_pages-deletes zero kind token first p (q ∷ rest) env t h k named = absurd (ground arith)
  sweep_pages-deletes (suc fuel) kind token first p (q ∷ rest) env t (after, more, h, served) k
        named =
      let split = all_named-append p (join q rest) in
      let listed = Event.list_identities kind token (ok (record { items = p; next = after })) ∷ t in
      let (next, e, n) = sweep_page-deletes first p env listed (ground (arith, split)) in
      let others =
        sweep_pages-deletes fuel kind after next q rest env
          (sweep_page active now first p env listed).1 served (omega arith)
          (ground (arith, split)) in
      let joined = count-append (is_orphan active now id) p (join q rest) in
      rw (h t, e, more) (others ∙ omega (arith, n, joined))

-- If the identities are listed, in however many pages, each with an id, then a sweep asks to
-- delete an identity as often as it is listed as an orphan: no active workload has it, and it was
-- not made within the last minute. Others it leaves alone, and an error of a deletion does not
-- stop it.
pub sweep_deletes_orphans :
    (active : List String) (now : Time) (id : String) (fuel : ℕ) (kind : IdentityType)
    (p : List (Option ManagedIdentity)) (rest : List (List (Option ManagedIdentity))) (env : Env)
    (t : Trace)
    → Serves (Platform.list_identities kind) env "" p rest
    → length rest ≤ fuel
    → all_named (join p rest) ≡ true
    → count (deletes id) (sweep_orphan_identities (suc fuel) kind active now env t).1
      ≡ count (is_orphan active now id) (join p rest) + count (deletes id) t
unfolding sweep_orphan_identities
sweep_deletes_orphans active now id fuel kind p rest env t h k named =
    sweep_pages-deletes active now id fuel kind "" none p rest env t h k named
