-- ===== src/Lifecycle/Topo/Rounds.antt =====
-- The rounds of the loop of core/lifecycle/topo.py, over any graph whose edges turn the needs around.
use offline_companion_core.Base.{
  ℕ, zero, suc, ◌+◌, ◌<◌, String, ◌≡◌, refl, sym, ap, subst, ◌∙◌, true, false, ◌||◌, some, List, [],
  ◌∷◌, arith, length, nat_eq, string_eq, pair_eq, contains, beq_self,
}
use offline_companion_core.Base.Dict.{Dict, lookup}
use offline_companion_core.Lifecycle.Topo.{
  PluginConfigEntry, degree, dependents, ids, release, drain,
}
use offline_companion_core.Lifecycle.Topo.Counts.{
  count, outside, Distinct, outside-cons, outside_none, contains-count, count_once, count-contains,
}
use offline_companion_core.Lifecycle.Topo.Invariant.{
  Zeros, Zeros-pop, release-Zeros, degree-release,
}

module _ {C : Type 0} where
  -- Each entry comes after the ids that it requires, `seen` being put out before.
  abbrev pub IsOrdered : List String → List (PluginConfigEntry C) → Type 0
  IsOrdered seen [] = Unit {0}
  IsOrdered seen (p ∷ ps) =
      ((r : String) → contains p.requires r ≡ true → contains seen r ≡ true)
      × IsOrdered (p.id ∷ seen) ps

  abbrev pub Stored : Dict String (PluginConfigEntry C) → List (PluginConfigEntry C) → Type 0
  Stored m [] = Unit {0}
  Stored m (p ∷ ps) = (lookup p.id m ≡ some p) × Stored m ps

  -- The ids put out after a list, the last one first.
  abbrev pub put : List (PluginConfigEntry C) → List String → List String
  put [] seen = seen
  put (p ∷ ps) seen = put ps (p.id ∷ seen)

  pub put-contains :
      (ps : List (PluginConfigEntry C)) (seen : List String) (v : String)
      → contains (put ps seen) v ≡ (contains (ids ps) v || contains seen v)
  put-contains [] seen v = refl
  put-contains (p ∷ ps) seen v = ground (arith, put-contains ps (p.id ∷ seen) v)

module _ {C : Type 0} (m : Dict String (PluginConfigEntry C)) (edges : Dict String (List String))
    (need : String → List String) (all_ids : List String) where
  pub record Fits : Type 0 where
    pub links : (u v : String) → count v (dependents edges u) ≡ count u (need v)
    pub listed : (v r : String) → contains (need v) r ≡ true → contains all_ids v ≡ true
    pub found :
        (v : String)
        → contains all_ids v ≡ true
        → (p : PluginConfigEntry C) × (lookup v m ≡ some p)
          × (p.id ≡ v)
          × ((r : String) → contains p.requires r ≡ true → contains (need v) r ≡ true)
    pub once : Distinct all_ids

  -- Between two rounds: each degree counts the needs that are not yet put out.
  pub record Between (seen : List String) (d : Dict String ℕ) (queue : List String) : Type 0 where
    pub zeros : Zeros all_ids seen d queue
    pub counted : (v : String) → degree d v ≡ outside seen (need v)

  pub record Drained (seen : List String) (result : List (PluginConfigEntry C))
      (left : Dict String ℕ) : Type 0 where
    pub ordered : IsOrdered seen result
    pub stored : Stored m result
    pub last : Between (put result seen) left []
    pub sized : length result + outside (put result seen) all_ids ≡ outside seen all_ids

  round-Between :
      (seen : List String) (d : Dict String ℕ) (u : String) (queue : List String)
      → Fits
      → Between seen d (u ∷ queue)
      → Between
          (u ∷ seen)
          (release (dependents edges u) d queue).0
          (release (dependents edges u) d queue).1
  round-Between seen d u queue fits b = record {
    zeros =
        release-Zeros all_ids (u ∷ seen) (dependents edges u) d queue known
          (Zeros-pop all_ids seen d u queue b.zeros);
    counted = λ v.
        rw (degree-release (dependents edges u) d queue v)
          (omega (arith, fits.links u v, outside-cons u seen (need v) new, b.counted v));
  }
    where
      new : contains seen u ≡ false
      new = b.zeros.fresh u (ground (arith, beq_self u))

      known : (v : String) → contains (dependents edges u) v ≡ true → contains all_ids v ≡ true
      known v h =
          let n = contains-count (dependents edges u) v h in
          let c = fits.links u v in fits.listed v u (count-contains (need v) u (omega arith))

  Drained-cons :
      (seen : List String) (d : Dict String ℕ) (u : String) (queue : List String)
      (p : PluginConfigEntry C) (result : List (PluginConfigEntry C)) (left : Dict String ℕ)
      → Fits
      → Between seen d (u ∷ queue)
      → lookup u m ≡ some p
      → p.id ≡ u
      → ((r : String) → contains p.requires r ≡ true → contains (need u) r ≡ true)
      → Drained (u ∷ seen) result left
      → Drained seen (p ∷ result) left
  Drained-cons seen d u queue p result left fits b found same needs rest = record {
    ordered = (
      λ r h. outside_none seen (need u) r ready (needs r h),
      subst (λ x. IsOrdered (x ∷ seen) result) (sym same) rest.ordered,
    );
    stored = (ap (λ x. lookup x m) same ∙ found, rest.stored);
    last = rw same (rest.last);
    sized =
        let e = rest.sized in
        rw same
          (omega (arith, outside-cons u seen all_ids new, count_once all_ids u fits.once here));
  }
    where
      first : contains (u ∷ queue) u ≡ true
      first = ground (arith, beq_self u)

      new : contains seen u ≡ false
      new = b.zeros.fresh u first

      here : contains all_ids u ≡ true
      here = b.zeros.known u first

      ready : outside seen (need u) ≡ 0
      ready = omega (arith, b.counted u, b.zeros.queued u first)

  drain_step :
      (fuel : ℕ) (d : Dict String ℕ) (u : String) (queue : List String) (p : PluginConfigEntry C)
      (result : List (PluginConfigEntry C)) (left : Dict String ℕ)
      → lookup u m ≡ some p
      → (let (d', queue') = release (dependents edges u) d queue in
          drain fuel m edges d' queue' ≡ some (result, left))
      → drain (suc fuel) m edges d (u ∷ queue) ≡ some (p ∷ result, left)
  unfolding drain
  drain_step fuel d u queue p result left found e = rw (drain, found, e) refl

  -- With more fuel than there are ids to put out, the loop ends.
  pub drain-Drained :
      (fuel : ℕ) (seen : List String) (d : Dict String ℕ) (queue : List String)
      → Fits
      → Between seen d queue
      → outside seen all_ids < fuel
      → (result : List (PluginConfigEntry C)) × (left : Dict String ℕ) × (drain fuel m edges d queue
          ≡ some (result, left))
        × Drained seen result left
  unfolding drain
  drain-Drained zero seen d queue fits b f = absurd (omega arith)
  drain-Drained (suc fuel) seen d [] fits b f =
      ([], d, refl, record { ordered = tt; stored = tt; last = b; sized = omega arith })
  drain-Drained (suc fuel) seen d (u ∷ queue) fits b f =
      let first : contains (u ∷ queue) u ≡ true = ground (arith, beq_self u) in
      let here = b.zeros.known u first in
      let new = b.zeros.fresh u first in
      let step = release (dependents edges u) d queue in
      let less : outside (u ∷ seen) all_ids < fuel =
        omega (arith, outside-cons u seen all_ids new, count_once all_ids u fits.once here) in
      let (p, found, same, needs) = fits.found u here in
      let (result, left, e, rest) =
        drain-Drained fuel (u ∷ seen) step.0 step.1 fits (round-Between seen d u queue fits b)
          less in
      (
        p ∷ result,
        left,
        drain_step fuel d u queue p result left found e,
        Drained-cons seen d u queue p result left fits b found same needs rest,
      )
