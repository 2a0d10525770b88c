-- ===== src/Plan/Walks.antt =====
-- The fuel of the walks downstream is enough, and what a walk leaves of the context.
use offline_companion_core.Base.{
  ℕ, zero, suc, ◌+◌, ◌≤◌, ◌<◌, String, ◌≡◌, subst, ◌≢◌, inl, inr, Bool, true, false, none, some,
  List, [], ◌∷◌, ◌++◌, arith, if◌then◌else◌, Bool-cases, get_or, length, length-append, ◌==◌,
  nat_eq, string_eq, pair_eq, contains, beq_self,
}
use offline_companion_core.Base.Dict.{Dict, lookup}
use offline_companion_core.Plan.Types.{TaskContext, Runtime}
use offline_companion_core.Plan.Successors.{
  edges, build_successors, walk, walk_fuel, block, unblock, propagate_failure, propagate_unblock,
}

-- The entries that steps not met yet can still add to the queue.
abbrev unmet : List String → Dict String (List String) → ℕ
unmet visited [] = 0
unmet visited ((k, vs) ∷ d) =
    let rest = unmet visited d in if contains visited k then rest else length vs + rest

unmet-le-edges : (visited : List String) (d : Dict String (List String)) → unmet visited d ≤ edges d
unmet-le-edges visited [] = omega arith
unmet-le-edges visited ((k, vs) ∷ d) = ground (arith, unmet-le-edges visited d)

unmet-cons-le :
    (id : String) (visited : List String) (d : Dict String (List String))
    → unmet (id ∷ visited) d ≤ unmet visited d
unmet-cons-le id visited [] = omega arith
unmet-cons-le id visited ((k, vs) ∷ d) = ground (arith, unmet-cons-le id visited d)

unmet-cons :
    (id : String) (visited : List String) (d : Dict String (List String))
    → contains visited id ≡ false
    → unmet (id ∷ visited) d + length (get_or (lookup id d) []) ≤ unmet visited d
unmet-cons id visited [] n = omega arith
unmet-cons id visited ((k, vs) ∷ d) n = elim (Bool-cases (k == id)) [
  | inl q ↦
      let e : k ≡ id = (string_eq.beq_iff k id).0 q in
      let fresh : contains visited k ≡ false = rw e n in
      let turned : (id == k) ≡ true = rw e (beq_self id) in
      ground (arith, unmet-cons-le id visited d)
  | inr q ↦ ground (arith, unmet-cons id visited d n)
]

lookup-le-edges :
    (id : String) (d : Dict String (List String)) → length (get_or (lookup id d) []) ≤ edges d
lookup-le-edges id [] = omega arith
lookup-le-edges id ((k, vs) ∷ d) = ground (arith, lookup-le-edges id d)

module _ {R T : Type 0} where
  walk-ne-none :
      (act : String → TaskContext R T → TaskContext R T × Bool) (d : Dict String (List String))
      (fuel : ℕ) (queue visited hits : List String) (c : TaskContext R T)
      → length queue + unmet visited d < fuel
      → walk act d fuel queue visited hits c ≢ none
  unfolding walk
  walk-ne-none act d zero queue visited hits c f h = absurd (omega arith)
  walk-ne-none act d (suc fuel) [] visited hits c f h = cc
  walk-ne-none act d (suc fuel) (id ∷ queue) visited hits c f h =
      elim (Bool-cases (contains visited id)) [
        | inl q ↦ walk-ne-none act d fuel queue visited hits c (omega arith) (ground arith)
        | inr q ↦
            walk-ne-none act d fuel (queue ++ get_or (lookup id d) []) (id ∷ visited)
              (if (act id c).1 then hits ++ id ∷ [] else hits) (act id c).0
              (omega
                (arith, unmet-cons id visited d q, length-append queue (get_or (lookup id d) [])))
              (ground arith)
      ]

  -- What every action of a walk preserves holds at its end.
  pub walk_keeps :
      (P : TaskContext R T → Type 0) (act : String → TaskContext R T → TaskContext R T × Bool)
      (d : Dict String (List String))
      → ((id : String) (c : TaskContext R T) → P c → P (act id c).0)
      → (fuel : ℕ) (queue visited hits : List String) (c : TaskContext R T) (c' : TaskContext R T)
        (hits' : List String)
      → walk act d fuel queue visited hits c ≡ some (c', hits')
      → P c
      → P c'
  unfolding walk
  walk_keeps P act d keep zero queue visited hits c c' hits' h p = cc
  walk_keeps P act d keep (suc fuel) [] visited hits c c' hits' h p = subst P (ground arith) p
  walk_keeps P act d keep (suc fuel) (id ∷ queue) visited hits c c' hits' h p =
      elim (Bool-cases (contains visited id)) [
        | inl q ↦ walk_keeps P act d keep fuel queue visited hits c c' hits' (ground arith) p
        | inr q ↦
            walk_keeps P act d keep fuel (queue ++ get_or (lookup id d) []) (id ∷ visited)
              (if (act id c).1 then hits ++ id ∷ [] else hits) (act id c).0 c' hits' (ground arith)
              (keep id c p)
      ]

  module _ (env : Runtime R T) where
    -- Both walks always end, on every graph of dependencies, cycles included.
    pub propagate_ne-none :
        (id : String) (c : TaskContext R T)
        → (propagate_failure env id c ≢ none) × (propagate_unblock env id c ≢ none)
    unfolding propagate_failure propagate_unblock
    propagate_ne-none id c =
        let d = build_successors c.steps in
        let q = get_or (lookup id d) [] in
        let enough : length q + unmet [] d < walk_fuel env d =
          omega (arith, lookup-le-edges id d, unmet-le-edges [] d) in
        let failure = walk-ne-none (block env) d (walk_fuel env d) q [] [] c enough in
        let success = walk-ne-none (unblock env) d (walk_fuel env d) q [] [] c enough in
        (λ h. ground arith, λ h. ground arith)
