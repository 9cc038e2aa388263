-- ===== src/Store/AuditLog/Queries.antt =====
-- Queries of the table audit_events against the chain in memory.
use cc_r_device_agent.Prelude.{
  ℕ, suc, ◌≡◌, refl, ◌∙◌, inl, inr, String, Bool, true, ◌&&◌, Option, some, List, [], ◌∷◌, leb, ok,
  arith, Bool-cases,
}
use mathlib.Core.Option
use cc_r_device_agent.Prelude.Sort.{is_sorted, sort_by_sorted, keep}
use cc_r_device_agent.Security.Audit.{AuditEvent, AuditChain, debug_action, debug_resource}
use cc_r_device_agent.Store.AuditLog.{
  AuditRow, Table, in_order, AuditEventFilter, row_matches, row_of, row_to_audit_event, read_rows,
  query_audit_events, is_wanted, is_since, is_until, system_time_to_unix_ms,
}
use cc_r_device_agent.Store.AuditLog.Refines.{rows_of}

-- An event of the chain is wanted by a query.
unfoldable pub is_match : AuditEventFilter → AuditEvent → Bool
is_match f e =
    is_wanted f.principal e.principal
    && is_wanted (Option.map debug_action f.action) (debug_action e.action)
    && is_wanted (Option.map debug_resource f.resource) (debug_resource e.resource)
    && is_wanted f.result e.result
    && is_since (Option.map system_time_to_unix_ms f.since) (system_time_to_unix_ms e.timestamp)
    && is_until (Option.map system_time_to_unix_ms f.until) (system_time_to_unix_ms e.timestamp)

-- The number of the first row is above `k`.
abbrev is_above : ℕ → Table → Bool
is_above k [] = true
is_above k (r ∷ rs) = leb (suc k) r.sequence

is_above_mono : (k : ℕ) (t : Table) → is_above (suc k) t ≡ true → is_above k t ≡ true
is_above_mono k [] h = refl
is_above_mono k (r ∷ t) h = ground arith

is_sorted-cons :
    (r : AuditRow) (k : ℕ) (t : Table)
    → r.sequence ≡ suc k
    → is_above (suc k) t ≡ true
    → is_sorted in_order t ≡ true
    → is_sorted in_order (r ∷ t) ≡ true
is_sorted-cons r k [] e a s = refl
is_sorted-cons r k (q ∷ t) e a s = ground arith

module _ (to_json : AuditEvent → String) (from_json : String → Option AuditEvent)
    (back : (e : AuditEvent) → from_json (to_json e) ≡ some e) where
  kept_above :
      (p : AuditRow → Bool) (k : ℕ) (es : List AuditEvent)
      → is_above k (keep p (rows_of to_json from_json back k es)) ≡ true
  unfolding keep rows_of row_of
  kept_above p k [] = refl
  kept_above p k (x ∷ es) = elim (Bool-cases (p (row_of to_json (suc k) x))) [
    | inl b ↦ rw b (ground arith)
    | inr b ↦ rw b (is_above_mono k _ (kept_above p (suc k) es))
  ]

  kept_sorted :
      (p : AuditRow → Bool) (k : ℕ) (es : List AuditEvent)
      → is_sorted in_order (keep p (rows_of to_json from_json back k es)) ≡ true
  unfolding keep rows_of row_of
  kept_sorted p k [] = refl
  kept_sorted p k (x ∷ es) = elim (Bool-cases (p (row_of to_json (suc k) x))) [
    | inl b ↦ rw b (
        is_sorted-cons (row_of to_json (suc k) x) k _ refl (kept_above p (suc k) es)
          (kept_sorted p (suc k) es))
    | inr b ↦ rw b (kept_sorted p (suc k) es)
  ]

  row_matches-row_of :
      (f : AuditEventFilter) (k : ℕ) (e : AuditEvent)
      → row_matches f (row_of to_json k e) ≡ is_match f e
  unfolding row_matches row_of is_match
  row_matches-row_of f k e = refl

  read_first : (k : ℕ) (e : AuditEvent) → row_to_audit_event from_json (row_of to_json k e) ≡ ok e
  unfolding row_to_audit_event row_of
  read_first k e = rw (back e, row_to_audit_event)

  read_kept :
      (f : AuditEventFilter) (k : ℕ) (es : List AuditEvent)
      → read_rows from_json (keep (row_matches f) (rows_of to_json from_json back k es))
        ≡ ok (keep (is_match f) es)
  unfolding keep rows_of read_rows
  read_kept f k [] = refl
  read_kept f k (x ∷ es) = elim (Bool-cases (is_match f x)) [
    | inl b ↦
        rw (row_matches-row_of f (suc k) x ∙ b, keep)
          (rw b (rw (read_first (suc k) x, read_rows) (rw (read_kept f (suc k) es))))
    | inr b ↦ rw (row_matches-row_of f (suc k) x ∙ b, keep) (rw b (read_kept f (suc k) es))
  ]

  -- A query of the rows of a chain gives exactly the events of the chain that it wants, in their order.
  pub query_rows :
      (f : AuditEventFilter) (c : AuditChain)
      → query_audit_events from_json f (rows_of to_json from_json back 0 c.events)
        ≡ ok (keep (is_match f) c.events)
  unfolding query_audit_events
  query_rows f c =
      rw (sort_by_sorted in_order _ (kept_sorted (row_matches f) 0 c.events))
        (read_kept f 0 c.events)
