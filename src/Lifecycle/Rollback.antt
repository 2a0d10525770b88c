-- ===== src/Lifecycle/Rollback.antt =====
-- Disposal is last in, first out, and happens once.
use offline_companion_core.Base.{
  ℕ, zero, suc, ◌≤◌, ◌≡◌, refl, sym, ap, subst, ◌∙◌, ◌⊎◌, inl, inr, true, false, none, some, List,
  [], ◌∷◌, ◌++◌, arith, if◌then◌else◌, Bool-cases, length, length-append, nat_eq, string_eq,
  pair_eq, Result, ok, err,
}
use mathlib.Core.List.{reverse, reverse-append, append-nil, append_assoc, Perm, reverse_perm}
use mathlib.Core.List.Perm
use offline_companion_core.Lifecycle.Effects.{
  EffectScope, ScopeError, setup_failed, Setup, returns, throws, pop_last, drain, call_all,
  add_disposer, add, dispose,
}

module _ {D : Type 0} where
  pop_last_lem : (d : D) (ds : List D) → (pop_last d ds).0 ++ (pop_last d ds).1 ∷ [] ≡ d ∷ ds
  pop_last_lem d [] = refl
  pop_last_lem d (e ∷ ds) = ap (◌∷◌ d) (pop_last_lem e ds)

  drain-eq-reverse : (n : ℕ) (ds : List D) → length ds ≤ n → drain n ds ≡ reverse ds
  unfolding drain
  drain-eq-reverse zero [] h = refl
  drain-eq-reverse zero (d ∷ ds) h = absurd (omega arith)
  drain-eq-reverse (suc n) [] h = refl
  drain-eq-reverse (suc n) (d ∷ ds) h =
      let split = pop_last_lem d ds in
      let front = (pop_last d ds).0 in
      let last = (pop_last d ds).1 in
      let short : length front ≤ n =
        omega (arith, ap length split, length-append front (last ∷ [])) in
      ap (◌∷◌ last) (drain-eq-reverse n front short)
      ∙ sym (reverse-append front (last ∷ []))
      ∙ ap reverse split

  -- `dispose` on an open scope calls every registered disposer once, the one registered last first,
  -- and leaves none; on a disposed scope it calls nothing and changes nothing.
  pub dispose-reverse :
      (s : EffectScope D)
      → dispose s ≡ (
          if s.disposed
          then (s, [], ok tt)
          else (record s { disposers = []; disposed = true }, reverse s.disposers, ok tt))
  unfolding dispose call_all
  dispose-reverse s =
      ap
        (λ ds.
          if s.disposed
          then (s, [], ok tt)
          else (record s { disposers = []; disposed = true }, ds, ok tt))
        (drain-eq-reverse (length s.disposers) s.disposers (omega arith))

  -- A setup that raises rolls back: what was registered before is called in reverse order, the
  -- scope is empty and stays open; a setup that returns a disposer only registers it.
  pub add-rollback :
      (s : EffectScope D) (d : D)
      → s.disposed ≡ false
      → (add throws s ≡ (record s { disposers = [] }, reverse s.disposers, err setup_failed))
        × (add (returns (some d)) s ≡ add_disposer d s)
        × (add (returns none) s ≡ (s, [], ok tt))
  unfolding add add_disposer call_all
  add-rollback s d h =
      (rw h (rw (drain-eq-reverse (length s.disposers) s.disposers (omega arith))), rw h, rw h)

-- The calls on a scope, by everybody who holds it, in any order.
pub data Call (D : Type 0) : Type 0 where
  adds : Setup D → Call D
  registers : D → Call D
  disposes : Call D

module _ {D : Type 0} where
  unfoldable pub perform :
      Call D → EffectScope D → EffectScope D × List D × Result ScopeError (Unit {0})
  perform (adds setup) s = add setup s
  perform (registers d) s = add_disposer d s
  perform disposes s = dispose s

  -- The disposers that a call registers: one of its own, if the scope is open.
  abbrev pub registered : Call D → EffectScope D → List D
  registered (adds (returns (some d))) s = if s.disposed then [] else d ∷ []
  registered (adds _) s = []
  registered (registers d) s = if s.disposed then [] else d ∷ []
  registered disposes s = []

  -- A run: the scope at its end, the disposers called, and the disposers registered.
  unfoldable pub run : List (Call D) → EffectScope D → EffectScope D × List D × List D
  unfolding perform
  run [] s = (s, [], [])
  run (c ∷ cs) s =
      let one = perform c s in
      let rest = run cs one.0 in (rest.0, one.1 ++ rest.1, registered c s ++ rest.2)

  called : (ds : List D) → Perm (call_all ds) ds
  unfolding call_all
  called ds =
      subst (λ es. Perm es ds) (sym (drain-eq-reverse (length ds) ds (omega arith)))
        (reverse_perm ds)

  nothing : (ds : List D) → Perm ds (ds ++ [])
  nothing ds = subst (Perm ds) (sym (append-nil ds)) (Perm.refl ds)

  emptied : (ds : List D) → Perm (call_all ds ++ []) (ds ++ [])
  emptied ds = Perm.append_right [] (called ds)

  -- One call: what it calls and what stays are what was there and what it registers.
  perform-Perm :
      (c : Call D) (s : EffectScope D)
      → Perm ((perform c s).1 ++ (perform c s).0.disposers) (s.disposers ++ registered c s)
  unfolding perform add add_disposer dispose
  perform-Perm c s = split c (Bool-cases s.disposed)
    where
      split :
          (c : Call D)
          → (s.disposed ≡ true) ⊎ (s.disposed ≡ false)
          → Perm ((perform c s).1 ++ (perform c s).0.disposers) (s.disposers ++ registered c s)
      split (adds throws) (inl q) = rw (q, add) (nothing s.disposers)
      split (adds throws) (inr q) = rw (q, add) (emptied s.disposers)
      split (adds (returns none)) (inl q) = rw (q, add) (nothing s.disposers)
      split (adds (returns none)) (inr q) = rw (q, add) (nothing s.disposers)
      split (adds (returns (some d))) (inl q) = rw (q, add) (nothing s.disposers)
      split (adds (returns (some d))) (inr q) = rw (q, add) (Perm.refl (s.disposers ++ d ∷ []))
      split (registers d) (inl q) = rw (q, add_disposer) (nothing s.disposers)
      split (registers d) (inr q) = rw (q, add_disposer) (Perm.refl (s.disposers ++ d ∷ []))
      split disposes (inl q) = rw (q, dispose) (nothing s.disposers)
      split disposes (inr q) = rw (q, dispose) (emptied s.disposers)

  -- Over any sequence of calls nothing is lost and nothing is called twice: the disposers called
  -- and those still registered are, up to order, those of the start and those registered since.
  pub run-Perm :
      (cs : List (Call D)) (s : EffectScope D)
      → Perm ((run cs s).1 ++ (run cs s).0.disposers) (s.disposers ++ (run cs s).2)
  unfolding run
  run-Perm [] s = nothing s.disposers
  run-Perm (c ∷ cs) s =
      let one = perform c s in
      let rest = run cs one.0 in
      Perm.trans
        (subst (λ xs. Perm xs (one.1 ++ (one.0.disposers ++ rest.2)))
          (sym (append_assoc one.1 rest.1 rest.0.disposers))
          (Perm.append_left one.1 (run-Perm cs one.0)))
        (subst (λ xs. Perm xs (s.disposers ++ (registered c s ++ rest.2)))
          (append_assoc one.1 one.0.disposers rest.2)
          (subst (Perm ((one.1 ++ one.0.disposers) ++ rest.2))
            (append_assoc s.disposers (registered c s) rest.2)
            (Perm.append_right rest.2 (perform-Perm c s))))
