-- ===== src/Store/AuditLog/Refines.antt =====
-- The table audit_events holds what an `AuditChain` in memory holds.
use cc_r_device_agent.Prelude.{
  ℕ, suc, ◌+◌, ◌≡◌, refl, sym, ap, ◌∙◌, inl, inr, String, Bool, true, false, Option, some, List, [],
  ◌∷◌, ◌++◌, any, length, str_eq, if◌then◌else◌, ok, err, arith, Bool-cases,
}
use mathlib.Core.List.{append_assoc, append-nil}
use native.Mathlib.Nat.{zero-add}
use cc_r_device_agent.Prelude.Sort.{is_sorted, sort_by_sorted}
use cc_r_device_agent.Security.Audit.{
  AuditEvent, AuditChain, push_stored, last_hash, append, sealed, verify, verify_from,
}
use cc_r_device_agent.Security.Audit.Chain.{verify-append}
use cc_r_device_agent.Store.AuditLog.{
  AuditRow, Table, newest, next_sequence, newest_hash, in_order, row_of, append_audit_event,
  row_to_audit_event, push_rows, load_audit_chain,
}

module _ (to_json : AuditEvent → String) (from_json : String → Option AuditEvent)
    (back : (e : AuditEvent) → from_json (to_json e) ≡ some e) where
  -- The rows of a chain, numbered from one above `k`.
  unfoldable pub rows_of : ℕ → List AuditEvent → Table
  rows_of k [] = []
  rows_of k (e ∷ es) = row_of to_json (suc k) e ∷ rows_of (suc k) es

  rows_of-append :
      (k : ℕ) (es : List AuditEvent) (e : AuditEvent)
      → rows_of k (es ++ e ∷ []) ≡ rows_of k es ++ row_of to_json (suc (k + length es)) e ∷ []
  unfolding rows_of
  rows_of-append k [] e = ap (λ n. row_of to_json n e ∷ []) (omega arith)
  rows_of-append k (x ∷ es) e =
      ap (λ z. row_of to_json (suc k) x ∷ z)
        (rows_of-append (suc k) es e
          ∙ ap (λ n. rows_of (suc k) es ++ row_of to_json n e ∷ []) (omega arith))

  -- The newest row is the last, and has the number of the events.
  newest_row :
      (k : ℕ) (x : AuditEvent) (es : List AuditEvent)
      → (r : AuditRow) × (newest (rows_of k (x ∷ es)) ≡ some r)
        × (r.sequence ≡ suc k + length es)
        × (r.hash ≡ last_hash (x ∷ es))
  unfolding newest rows_of row_of
  newest_row k x [] = (row_of to_json (suc k) x, refl, omega arith, refl)
  newest_row k x (y ∷ es) =
      let (r, e, s, h) = newest_row (suc k) y es in
      (r, rw (e, newest) (ground arith), omega (arith, s), h)

  rows_of-is_sorted : (k : ℕ) (es : List AuditEvent) → is_sorted in_order (rows_of k es) ≡ true
  unfolding rows_of row_of
  rows_of-is_sorted k [] = refl
  rows_of-is_sorted k (x ∷ []) = refl
  rows_of-is_sorted k (x ∷ y ∷ es) = ground (arith, rows_of-is_sorted (suc k) (y ∷ es))

  newest_hash-rows_of : (es : List AuditEvent) → newest_hash (rows_of 0 es) ≡ last_hash es
  unfolding newest_hash rows_of newest
  newest_hash-rows_of [] = refl
  newest_hash-rows_of (x ∷ es) = let (r, e, s, h) = newest_row 0 x es in rw (e, newest_hash) h

  next_sequence-rows_of : (es : List AuditEvent) → next_sequence (rows_of 0 es) ≡ suc (length es)
  unfolding next_sequence rows_of newest
  next_sequence-rows_of [] = refl
  next_sequence-rows_of (x ∷ es) =
      let (r, e, s, h) = newest_row 0 x es in rw (e, next_sequence) (omega (arith, s))

  -- The identifier is one of the events'.
  abbrev pub is_known : AuditEvent → List AuditEvent → Bool
  is_known e es = any (λ x. str_eq x.event_id e.event_id) es

  is_known-rows_of :
      (k : ℕ) (e : AuditEvent) (es : List AuditEvent)
      → any (λ r. str_eq r.id e.event_id) (rows_of k es) ≡ is_known e es
  unfolding rows_of row_of
  is_known-rows_of k e [] = refl
  is_known-rows_of k e (x ∷ es) = rw (is_known-rows_of (suc k) e es)

  push_rows-rows_of :
      (k : ℕ) (c : AuditChain) (es : List AuditEvent)
      → push_rows from_json c (rows_of k es) ≡ ok (record { events = c.events ++ es })
  unfolding push_rows rows_of row_of push_stored row_to_audit_event
  push_rows-rows_of k c [] = rw append-nil
  push_rows-rows_of k c (x ∷ es) =
      rw (back x, push_rows, row_to_audit_event)
        (push_rows-rows_of (suc k) (push_stored c x) es ∙ rw append_assoc)

  -- What is loaded from the rows of a chain is the chain.
  pub load_rows : (c : AuditChain) → load_audit_chain from_json (rows_of 0 c.events) ≡ ok c
  unfolding load_audit_chain
  load_rows c =
      rw (sort_by_sorted in_order (rows_of 0 c.events) (rows_of-is_sorted 0 c.events))
        (push_rows-rows_of 0 (record { events = [] }) c.events)

  -- Appending an event to the rows of a chain gives the rows of the chain with the event appended,
  -- or an error and the same rows if the chain has an event of that identifier.
  pub append_rows :
      (sha256 : String → List ℕ) (c : AuditChain) (e : AuditEvent)
      → append_audit_event to_json sha256 e (rows_of 0 c.events) ≡ (
          if is_known e c.events
          then (rows_of 0 c.events, err "UNIQUE constraint failed: audit_events.id")
          else (rows_of 0 (append sha256 c e).events, ok tt))
  unfolding append_audit_event append sealed
  append_rows sha256 c e =
      let known = is_known-rows_of 0 e c.events in
      elim (Bool-cases (is_known e c.events)) [
        | inl b ↦ rw (known ∙ b, append_audit_event) (rw b)
        | inr b ↦
            rw (known ∙ b, append_audit_event)
              (rw b (
                rw newest_hash-rows_of (
                  rw next_sequence-rows_of (
                    rw (rows_of-append 0 c.events (sealed sha256 e (last_hash c.events)))
                      (rw zero-add)))))
      ]

  -- The chain that a sequence of events makes: an event with a known identifier is refused.
  unfoldable pub logged : (String → List ℕ) → List AuditEvent → AuditChain → AuditChain
  logged sha256 [] c = c
  logged sha256 (e ∷ es) c = logged sha256 es (if is_known e c.events then c else append sha256 c e)

  -- The table after the same sequence.
  unfoldable pub append_all : (String → List ℕ) → List AuditEvent → Table → Table
  append_all sha256 [] t = t
  append_all sha256 (e ∷ es) t = append_all sha256 es (append_audit_event to_json sha256 e t).0

  logged_step :
      (sha256 : String → List ℕ) (e : AuditEvent) (es : List AuditEvent) (c : AuditChain) (b : Bool)
      → is_known e c.events ≡ b
      → logged sha256 (e ∷ es) c ≡ logged sha256 es (if b then c else append sha256 c e)
  unfolding logged
  logged_step sha256 e es c b h = ap (λ z. logged sha256 es (if z then c else append sha256 c e)) h

  append_step :
      (sha256 : String → List ℕ) (e : AuditEvent) (c : AuditChain) (b : Bool)
      → is_known e c.events ≡ b
      → (append_audit_event to_json sha256 e (rows_of 0 c.events)).0
        ≡ rows_of 0 (if b then c else append sha256 c e).events
  append_step sha256 e c true h = ap (λ z. z.0) (append_rows sha256 c e) ∙ rw h
  append_step sha256 e c false h = ap (λ z. z.0) (append_rows sha256 c e) ∙ rw h

  append_all-rows_of :
      (sha256 : String → List ℕ) (es : List AuditEvent) (c : AuditChain)
      → append_all sha256 es (rows_of 0 c.events) ≡ rows_of 0 (logged sha256 es c).events
  unfolding append_all
  append_all-rows_of sha256 [] c = unfold logged in refl
  append_all-rows_of sha256 (e ∷ es) c =
      let b = is_known e c.events in
      ap (append_all sha256 es) (append_step sha256 e c b refl)
      ∙ append_all-rows_of sha256 es (if b then c else append sha256 c e)
      ∙ ap (λ z. rows_of 0 z.events) (sym (logged_step sha256 e es c b refl))

  logged-verify :
      (sha256 : String → List ℕ) (es : List AuditEvent) (c : AuditChain)
      → verify sha256 (logged sha256 es c) ≡ verify sha256 c
  logged-verify sha256 [] c = unfold logged in refl
  logged-verify sha256 (e ∷ es) c = elim (Bool-cases (is_known e c.events)) [
    | inl b ↦ rw (logged_step sha256 e es c true b) (logged-verify sha256 es c)
    | inr b ↦
        rw (logged_step sha256 e es c false b)
          (logged-verify sha256 es (append sha256 c e) ∙ verify-append sha256 c e)
  ]

  -- If JSON gives events back, then what is loaded after any sequence of appends to an empty table is
  -- the chain in memory of the same appends, without those whose identifier was known, and it
  -- verifies.
  pub load-append_all :
      (sha256 : String → List ℕ) (es : List AuditEvent)
      → let c = logged sha256 es (record { events = [] }) in
        (load_audit_chain from_json (append_all sha256 es []) ≡ ok c) × (verify sha256 c ≡ true)
  unfolding rows_of verify verify_from
  load-append_all sha256 es =
      let start : AuditChain = record { events = [] } in
      (
        ap (load_audit_chain from_json) (append_all-rows_of sha256 es start)
            ∙ load_rows (logged sha256 es start),
        logged-verify sha256 es start,
      )
