-- ===== src/Lifecycle/Effects.antt =====
-- `EffectScope`, core/lifecycle/effect_scope.py. A disposer of type `D` is called, and what it
-- raises is logged and dropped, so a call shows as the disposer alone. A disposer that is awaited
-- is taken to end, and no disposer calls its own scope.
use offline_companion_core.Base.{
  ℕ, zero, suc, String, Bool, true, false, Option, none, some, List, [], ◌∷◌, ◌++◌, if◌then◌else◌,
  length, nat_eq, string_eq, pair_eq, Result, ok, err,
}

pub record EffectScope (D : Type 0) : Type 0 where
  pub name : String
  -- In the order of registration.
  pub disposers : List D
  pub disposed : Bool

pub data ScopeError : Type 0 where
  already_disposed setup_failed : ScopeError

-- What the setup function of `add` does.
pub data Setup (D : Type 0) : Type 0 where
  returns : Option D → Setup D
  throws : Setup D

module _ {D : Type 0} where
  unfoldable pub new : String → EffectScope D
  new name = record { name = name; disposers = []; disposed = false }

  -- `list.pop()`: the last entry, and the rest.
  abbrev pub pop_last : D → List D → List D × D
  pop_last d [] = ([], d)
  pop_last d (e ∷ ds) = let (front, last) = pop_last e ds in (d ∷ front, last)

  -- The loop `while self._disposers`: the calls in order. Each round shortens the list by one.
  unfoldable pub drain : ℕ → List D → List D
  drain zero ds = []
  drain (suc fuel) [] = []
  drain (suc fuel) (d ∷ ds) = let (front, last) = pop_last d ds in last ∷ drain fuel front

  unfoldable pub call_all : List D → List D
  unfolding drain
  call_all ds = drain (length ds) ds

  -- A method gives the scope, the disposers that it called, and its result.
  unfoldable pub add_disposer :
      D → EffectScope D → EffectScope D × List D × Result ScopeError (Unit {0})
  add_disposer d s =
      if s.disposed
      then (s, [], err already_disposed)
      else (record s { disposers = s.disposers ++ d ∷ [] }, [], ok tt)

  unfoldable pub add :
      Setup D → EffectScope D → EffectScope D × List D × Result ScopeError (Unit {0})
  unfolding call_all
  add setup s = if s.disposed then (s, [], err already_disposed) else elim setup [
    | returns none ↦ (s, [], ok tt)
    | returns (some d) ↦ (record s { disposers = s.disposers ++ d ∷ [] }, [], ok tt)
    | throws ↦ (record s { disposers = [] }, call_all s.disposers, err setup_failed)
  ]

  unfoldable pub dispose : EffectScope D → EffectScope D × List D × Result ScopeError (Unit {0})
  unfolding call_all
  dispose s =
      if s.disposed
      then (s, [], ok tt)
      else (record s { disposers = []; disposed = true }, call_all s.disposers, ok tt)
