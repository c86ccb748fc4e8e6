-- ===== src/Reconciler/GroupRoles/Stale.antt =====
-- Which attributes a patch takes away.
use agents_orchestrator.Prelude.{
  ℕ, String, ◌≡◌, refl, ◌∙◌, ap, Bool, true, not, ◌&&◌, ◌||◌, List, [], ◌∷◌, ◌++◌, arith, count,
  count-append, member, member-append, if◌then◌else◌, ◌==◌, eq_iff,
}
use agents_orchestrator.Reconciler.Identity.{sort_texts, insert_text}
use agents_orchestrator.Reconciler.GroupRoles.{stale_loop, stale_candidate_attributes}

abbrev pub is_text : String → String → Bool
is_text x y = y == x

insert_text-count :
    (x y : String) (ys : List String)
    → count (is_text x) (insert_text y ys) ≡ count (is_text x) (y ∷ ys)
unfolding insert_text
insert_text-count x y [] = refl
insert_text-count x y (z ∷ zs) = ground (arith, insert_text-count x y zs)

sort_texts-count :
    (x : String) (ys : List String) → count (is_text x) (sort_texts ys) ≡ count (is_text x) ys
unfolding sort_texts
sort_texts-count x [] = refl
sort_texts-count x (y ∷ ys) =
    omega (arith, insert_text-count x y (sort_texts ys), sort_texts-count x ys)

abbrev at_most_once : Bool → ℕ
at_most_once b = if b then 1 else 0

abbrev taken : List String → String → List String → List String
taken desired c remove =
    if member c desired then remove else if member c remove then remove else remove ++ c ∷ []

same-member : (x c : String) (ys : List String) → c == x ≡ true → member c ys ≡ member x ys
same-member x c ys h = ap (λ k. member k ys) ((eq_iff c x).0 h)

taken-member :
    (x c : String) (desired remove : List String)
    → member x (taken desired c remove) ≡ (member x remove || c == x && not (member x desired))
taken-member x c desired remove =
    ground (arith, same-member x c desired, same-member x c remove, member-append x remove (c ∷ []))

taken-count :
    (x c : String) (desired remove : List String)
    → count (is_text x) remove ≡ at_most_once (member x remove)
    → count (is_text x) (taken desired c remove) ≡ at_most_once (member x (taken desired c remove))
taken-count x c desired remove h = ground (
  arith,
  h,
  same-member x c desired,
  same-member x c remove,
  member-append x remove (c ∷ []),
  count-append (is_text x) remove (c ∷ []),
)

stale_loop-count :
    (x : String) (desired cs remove : List String)
    → count (is_text x) remove ≡ at_most_once (member x remove)
    → count (is_text x) (stale_loop desired cs remove)
      ≡ at_most_once (member x remove || member x cs && not (member x desired))
unfolding stale_loop
stale_loop-count x desired [] remove h = ground (arith, h)
stale_loop-count x desired (c ∷ cs) remove h =
    let rest =
      stale_loop-count x desired cs (taken desired c remove) (taken-count x c desired remove h) in
    rest ∙ ap at_most_once (ground (arith, taken-member x c desired remove))

-- An attribute is taken away once if it is a candidate and no longer wanted, and else not at all.
pub removes_stale_once :
    (x : String) (desired candidates : List String)
    → count (is_text x) (stale_candidate_attributes desired candidates)
      ≡ (if member x candidates && not (member x desired) then 1 else 0)
unfolding stale_candidate_attributes
removes_stale_once x desired candidates =
    sort_texts-count x (stale_loop desired candidates [])
    ∙ stale_loop-count x desired candidates [] refl
