-- ===== src/Reconciler/Cycles/Settle.antt =====
-- The tracked records of one runner against its report, whatever is done with each of them.
pub mod Left
use agents_orchestrator.Prelude.{
  String, Bool, Option, none, some, List, [], ◌∷◌, Map, lookup, remove,
}
use agents_orchestrator.Errors.{Result}
use agents_orchestrator.Platform.{RunnerItem}
use agents_orchestrator.Effect.{Eff, pure, observes, ◌>>=◌, ◌>>◌}
use agents_orchestrator.Reconciler.Cycles.Group.{keys}

-- `for key, value := range m`, in the order in which the runtime visits the keys.
on_key {ℓ} : {V : Type ℓ} → (V → Eff (Unit {0})) → Option V → Eff (Unit {0})
on_key f none = pure tt
on_key f (some v) = f v

on_keys {ℓ} : {V : Type ℓ} → (V → Eff (Unit {0})) → Map V → List String → Eff (Unit {0})
unfolding on_key
on_keys f m [] = pure tt
on_keys f m (k ∷ ks) = on_key f (lookup k m) >> on_keys f m ks

unfoldable pub range {ℓ} : {V : Type ℓ} → (V → Eff (Unit {0})) → Map V → Eff (Unit {0})
unfolding on_keys
range f m = do ks ← observes (λ env tr. env.visit tr (keys m)); on_keys f m ks

-- A tracked record whose key is in the report is present, and the key is taken out of the report;
-- else it is missing. `S` is what the handlers keep from one record to the next.
module _ {ℓ} {V S : Type ℓ} (present : S → V → RunnerItem → Eff S) (missing : S → V → Eff S) where
  settle_one : Map RunnerItem → S → String → V → Option RunnerItem → Eff (Map RunnerItem × S)
  settle_one items s k v none = do next ← missing s v; pure (items, next)
  settle_one items s k v (some i) = do next ← present s v i; pure (remove k items, next)

  settle_key : Map RunnerItem → S → String → Option V → Eff (Map RunnerItem × S)
  unfolding settle_one
  settle_key items s k none = pure (items, s)
  settle_key items s k (some v) = settle_one items s k v (lookup k items)

  unfoldable pub settle_keys : Map V → List String → Map RunnerItem × S → Eff (Map RunnerItem × S)
  unfolding settle_key
  settle_keys tracked [] state = pure state
  settle_keys tracked (k ∷ ks) (items, s) =
      settle_key items s k (lookup k tracked) >>= settle_keys tracked ks

  -- The loop over the tracked records: what is left of the report, and the handlers' state.
  unfoldable pub settle : Map V → Map RunnerItem → S → Eff (Map RunnerItem × S)
  unfolding settle_keys
  settle tracked items s = do
    ks ← observes (λ env tr. env.visit tr (keys tracked))
    settle_keys tracked ks (items, s)
