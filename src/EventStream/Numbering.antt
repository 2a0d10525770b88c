-- ===== src/EventStream/Numbering.antt =====
-- The numbering of the events of a stream, as `append` and `restore_events` keep it.
use offline_companion_core.Base.{
  ℕ, zero, suc, ◌+◌, String, ◌≡◌, refl, subst, false, not, some, List, [], ◌∷◌, ◌++◌, arith, length,
  get_elem?, drop, any, ◌==◌, nat_eq, string_eq, pair_eq,
}
use offline_companion_core.EventStream.Types.{DomainEvent}
use offline_companion_core.EventStream.Stream.{misnumbered}

module _ {V T : Type 0} where
  -- The events carry the stream's name and the numbers from `n` on.
  abbrev pub Numbered : ℕ → String → List (DomainEvent V T) → Type 0
  Numbered n id [] = Unit {0}
  Numbered n id (e ∷ es) = (e.seq ≡ n) × (e.stream_id ≡ id) × Numbered (suc n) id es

  pub Numbered-append :
      (n : ℕ) (id : String) (es : List (DomainEvent V T)) (e : DomainEvent V T)
      → Numbered n id es
      → e.seq ≡ n + length es
      → e.stream_id ≡ id
      → Numbered n id (es ++ e ∷ [])
  Numbered-append n id [] e h p q = (omega arith, q, tt)
  Numbered-append n id (d ∷ es) e h p q =
      (h.0, h.1, Numbered-append (suc n) id es e h.2 (omega arith) q)

  pub Numbered-get_elem? :
      (n : ℕ) (id : String) (es : List (DomainEvent V T)) (i : ℕ) (e : DomainEvent V T)
      → Numbered n id es
      → get_elem? es i ≡ some e
      → (e.seq ≡ n + i) × (e.stream_id ≡ id)
  Numbered-get_elem? n id [] i e h p = cc
  Numbered-get_elem? n id (d ∷ es) zero e h p = ground arith
  Numbered-get_elem? n id (d ∷ es) (suc i) e h p =
      ground (arith, Numbered-get_elem? (suc n) id es i e h.2 p)

  pub Numbered-drop :
      (n : ℕ) (id : String) (es : List (DomainEvent V T)) (k : ℕ)
      → Numbered n id es
      → Numbered (n + k) id (drop k es)
  Numbered-drop n id es zero h = subst (λ m. Numbered m id es) (omega arith) h
  Numbered-drop n id [] (suc k) h = tt
  Numbered-drop n id (e ∷ es) (suc k) h =
      subst (λ m. Numbered m id (drop k es)) (omega arith) (Numbered-drop (suc n) id es k h.2)

  -- What `restore_events` tests is the numbering from 0.
  pub misnumbered-Numbered :
      (n : ℕ) (id : String) (es : List (DomainEvent V T))
      → any (λ e. not (e.stream_id == id)) es ≡ false
      → misnumbered n es ≡ false
      → Numbered n id es
  misnumbered-Numbered n id [] p q = tt
  misnumbered-Numbered n id (e ∷ es) p q =
      ground (arith, string_eq.beq_iff e.stream_id id, misnumbered-Numbered (suc n) id es)

  pub Numbered-misnumbered :
      (n : ℕ) (id : String) (es : List (DomainEvent V T))
      → Numbered n id es
      → (any (λ e. not (e.stream_id == id)) es ≡ false) × (misnumbered n es ≡ false)
  Numbered-misnumbered n id [] h = (refl, refl)
  Numbered-misnumbered n id (e ∷ es) h =
      ground (arith, string_eq.beq_iff e.stream_id id, Numbered-misnumbered (suc n) id es h.2)
