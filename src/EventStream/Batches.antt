-- ===== src/EventStream/Batches.antt =====
-- The writer's batches: what reaches the table does not depend on how the queue is cut, nor on
-- whether a batch goes in at once or row by row.
use offline_companion_core.Base.{
  ℕ, zero, suc, ◌≡◌, refl, sym, ap, subst, ◌∙◌, inl, inr, Bool, true, Option, none, some, String,
  List, [], ◌∷◌, ◌++◌, arith, if◌then◌else◌, Bool-cases, select, all, nat_eq, string_eq, pair_eq,
}
use offline_companion_core.EventStream.Types.{DomainEvent}
use offline_companion_core.EventStream.Store.{
  Row, Persistence, Codec, row_with, row_of, insert_or_ignore, insert_all, retry_each, write_rows,
  rows_of, flush_batch, split_at, write_loop,
}

module _ {T : Type 0} (writable : Row T → Bool) where
  pub retry_each-append :
      (es ds rows : List (Row T))
      → retry_each writable (es ++ ds) rows ≡ retry_each writable ds (retry_each writable es rows)
  unfolding retry_each
  retry_each-append [] ds rows = refl
  retry_each-append (e ∷ es) ds rows =
      retry_each-append es ds (if writable e then insert_or_ignore e rows else rows)

  pub insert_all-eq-retry_each :
      (es rows : List (Row T))
      → all writable es ≡ true
      → insert_all es rows ≡ retry_each writable es rows
  unfolding retry_each insert_all
  insert_all-eq-retry_each [] rows h = refl
  insert_all-eq-retry_each (e ∷ es) rows h =
      ground (arith, insert_all-eq-retry_each es (insert_or_ignore e rows))

  -- A batch leaves the table as row by row insertion of its writable rows does.
  pub write_rows-eq-retry_each :
      (es rows : List (Row T)) → write_rows writable es rows ≡ retry_each writable es rows
  unfolding write_rows
  write_rows-eq-retry_each es rows = elim (Bool-cases (all writable es)) [
    | inl q ↦ rw q (insert_all-eq-retry_each es rows q)
    | inr q ↦ rw q
  ]

  pub retry_each-select :
      (es rows : List (Row T)) → retry_each writable es rows ≡ insert_all (select writable es) rows
  unfolding retry_each insert_all
  retry_each-select [] rows = refl
  retry_each-select (e ∷ es) rows =
      ground (arith, retry_each-select es rows, retry_each-select es (insert_or_ignore e rows))

-- The payload has a text, as `DomainEvent` checks when it is made.
abbrev pub Textual : {V T : Type 0} → Codec V → List (DomainEvent V T) → Type 0
Textual json [] = Unit {0}
Textual json (e ∷ es) = ((t : String) × (json.dumps e.payload ≡ some t)) × Textual json es

module _ {V T : Type 0} (json : Codec V) where
  split_at-append :
      (n : ℕ) (es : List (DomainEvent V T)) → (split_at n es).0 ++ (split_at n es).1 ≡ es
  split_at-append zero es = refl
  split_at-append (suc n) [] = refl
  split_at-append (suc n) (e ∷ es) = ap (◌∷◌ e) (split_at-append n es)

  -- The rows of events, where their payloads have texts.
  abbrev pub texts : List (DomainEvent V T) → List (Row T)
  texts [] = []
  texts (e ∷ es) = elim (row_of json e) [ none ↦ texts es | some r ↦ r ∷ texts es ]

  pub row_of-text :
      (e : DomainEvent V T) (t : String)
      → json.dumps e.payload ≡ some t
      → row_of json e ≡ some (row_with e t)
  unfolding row_of
  row_of-text e t q = rw (row_of, q) refl

  pub texts-cons :
      (e : DomainEvent V T) (es : List (DomainEvent V T)) (t : String)
      → json.dumps e.payload ≡ some t
      → texts (e ∷ es) ≡ row_with e t ∷ texts es
  texts-cons e es t q =
      ap (λ o. elim o [ none ↦ texts es | some r ↦ r ∷ texts es ]) (row_of-text e t q)

  rows_of-texts :
      (es : List (DomainEvent V T)) → Textual json es → rows_of json es ≡ some (texts es)
  unfolding rows_of
  rows_of-texts [] h = refl
  rows_of-texts (e ∷ es) ((t, q), h) =
      rw (row_of-text e t q, rows_of-texts es h, rows_of) (ap some (sym (texts-cons e es t q)))

  texts-append : (es ds : List (DomainEvent V T)) → texts (es ++ ds) ≡ texts es ++ texts ds
  texts-append [] ds = refl
  texts-append (e ∷ es) ds = by_row (texts-append es ds) (row_of json e)
    where
      by_row :
          texts (es ++ ds) ≡ texts es ++ texts ds
          → (o : Option (Row T))
          → elim o [ none ↦ texts (es ++ ds) | some r ↦ r ∷ texts (es ++ ds) ]
            ≡ elim o [ none ↦ texts es | some r ↦ r ∷ texts es ] ++ texts ds
      by_row ih none = ih
      by_row ih (some r) = ap (◌∷◌ r) ih

  Textual-split_at :
      (n : ℕ) (es : List (DomainEvent V T))
      → Textual json es
      → Textual json (split_at n es).0 × Textual json (split_at n es).1
  Textual-split_at zero es h = (tt, h)
  Textual-split_at (suc n) [] h = (tt, tt)
  Textual-split_at (suc n) (e ∷ es) (q, h) =
      let (front, back) = Textual-split_at n es h in ((q, front), back)

module _ {V T : Type 0} (json : Codec V) (writable : Row T → Bool) where
  -- Whatever batches the writer takes: what it has written and what is left in the queue together
  -- give the table that the whole queue, row by row, would give.
  pub write_loop_cut :
      (ns : List ℕ) (p : Persistence V T)
      → Textual json p.write_queue
      → let p' = write_loop json writable ns p in
        retry_each writable (texts json p'.write_queue) p'.rows
        ≡ retry_each writable (texts json p.write_queue) p.rows
  unfolding write_loop flush_batch
  write_loop_cut [] p h = refl
  write_loop_cut (n ∷ ns) p h =
      let front = (split_at n p.write_queue).0 in
      let back = (split_at n p.write_queue).1 in
      let (f, b) = Textual-split_at json n p.write_queue h in
      let flushed : flush_batch json writable front p.rows
          ≡ retry_each writable (texts json front) p.rows =
        rw (rows_of-texts json front f, flush_batch)
          (write_rows-eq-retry_each writable (texts json front) p.rows) in
      write_loop_cut ns
        (record p { rows = flush_batch json writable front p.rows; write_queue = back }) b
      ∙ ap (retry_each writable (texts json back)) flushed
      ∙ sym (retry_each-append writable (texts json front) (texts json back) p.rows)
      ∙ ap (λ es. retry_each writable es p.rows) (sym (texts-append json front back))
      ∙ ap (λ es. retry_each writable (texts json es) p.rows) (split_at-append json n p.write_queue)

  -- Once the queue is empty, the table holds the writable rows of the queue, inserted in order,
  -- whatever the batches were, where every payload in the queue has a text.
  pub write_loop_drained :
      (ns : List ℕ) (p : Persistence V T)
      → Textual json p.write_queue
      → (write_loop json writable ns p).write_queue ≡ []
      → (write_loop json writable ns p).rows
        ≡ insert_all (select writable (texts json p.write_queue)) p.rows
  unfolding retry_each rows_of
  write_loop_drained ns p t h =
      subst
        (λ q.
          retry_each writable (texts json q) (write_loop json writable ns p).rows
          ≡ insert_all (select writable (texts json p.write_queue)) p.rows)
        h (write_loop_cut ns p t ∙ retry_each-select writable (texts json p.write_queue) p.rows)
