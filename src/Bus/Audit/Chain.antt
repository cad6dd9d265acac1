-- ===== src/Bus/Audit/Chain.antt =====
-- kernel/src/bus/audit.rs: the entries form a chain by their hashes.
use fabric_os.Base.{
  ℕ, ◌+◌, ◌%◌, ◌<◌, ◌≤◌, ◌≡◌, refl, sym, ap, ◌∙◌, true, false, List, [], ◌∷◌, ◌++◌, none, length,
  arith, if◌then◌else◌, Bool-cases, inl, inr, drop, ltb, ltb→lt,
}
use fabric_os.Base.Ring.{Ring, Ring-cast, empty-Ring, Ring-push, Ring-advance}
use fabric_os.Base.Words.{add64, u64_mod}
use fabric_os.Crypto.{Crypto}
use fabric_os.Wire.Audit.{AuditEntry, AuditAction, hashable_bytes, zero_hash}
use fabric_os.Bus.Audit.{
  AuditLog, audit_capacity, new, ring_count, oldest, hash_input, digest, chained_entry, store_entry,
  append,
}

pub next_index :
    (start i : ℕ)
    → ((start + i) % audit_capacity + 1) % audit_capacity ≡ (start + (i + 1)) % audit_capacity
next_index start i = omega arith

module _ (crypto : Crypto) where
  -- Each entry carries its own digest and the hash of the entry before it; `p` is the hash before the
  -- first, and `l` the hash of the last.
  abbrev pub Linked : List ℕ → List AuditEntry → List ℕ → Type 0
  Linked p [] l = p ≡ l
  Linked p (e ∷ es) l = (e.prev_hash ≡ p) × (e.hash ≡ digest crypto e) × Linked e.hash es l

  Linked-append :
      (p l : List ℕ) (es : List AuditEntry) (e : AuditEntry)
      → Linked p es l
      → e.prev_hash ≡ l
      → e.hash ≡ digest crypto e
      → Linked p (es ++ e ∷ []) e.hash
  Linked-append p l [] e k q d = (q ∙ sym k, d, refl)
  Linked-append p l (x ∷ es) e k q d = (k.0, k.1, Linked-append x.hash l es e k.2 q d)

  -- The log holds the entries of the list, oldest first, as a chain that ends in its hash.
  pub record Logged (log : AuditLog) (es : List AuditEntry) : Type 0 where
    pub ring : Ring audit_capacity log.entries (oldest log) log.write_pos (ring_count log) es
    pub start : List ℕ
    pub linked : Linked start es log.prev_hash

  pub new-Logged : Logged new []
  unfolding new oldest ring_count
  new-Logged = record {
    ring = empty-Ring audit_capacity (λ i. none) (omega arith);
    start = zero_hash;
    linked = refl;
  }

  -- What the log keeps of one entry more: the last 512.
  abbrev pub keep_last : List AuditEntry → AuditEntry → List AuditEntry
  keep_last es e = (if ltb (length es) audit_capacity then es else drop 1 es) ++ e ∷ []

  oldest-store :
      (log : AuditLog) (e : AuditEntry)
      → log.total_count + 1 < u64_mod
      → log.write_pos ≡ (oldest log + ring_count log) % audit_capacity
      → oldest (store_entry crypto log e) ≡ (
          if ltb log.total_count audit_capacity
          then oldest log
          else (oldest log + 1) % audit_capacity)
  unfolding store_entry oldest ring_count
  oldest-store log e fits at = ground arith

  ring_count-store :
      (log : AuditLog) (e : AuditEntry)
      → log.total_count + 1 < u64_mod
      → ring_count (store_entry crypto log e)
        ≡ (if ltb log.total_count audit_capacity then ring_count log + 1 else ring_count log)
  unfolding store_entry ring_count
  ring_count-store log e fits = ground arith

  ring_count-lt :
      (log : AuditLog)
      → (ltb (ring_count log) audit_capacity) ≡ (ltb log.total_count audit_capacity)
  unfolding ring_count
  ring_count-lt log = ground arith

  wrap_next : (w : ℕ) → w < audit_capacity → (w + 1) % audit_capacity ≡ add64 w 1 % audit_capacity
  wrap_next w h = omega arith

  -- A log with room takes one entry more; a full one loses its oldest.
  store_room-Logged :
      (log : AuditLog) (es : List AuditEntry) (e : AuditEntry)
      → Logged log es
      → log.total_count + 1 < u64_mod
      → e.prev_hash ≡ log.prev_hash
      → e.hash ≡ digest crypto e
      → length es < audit_capacity
      → Logged (store_entry crypto log e) (es ++ e ∷ [])
  unfolding store_entry
  store_room-Logged log es e v fits q d room =
      let at = v.ring.tail_at ∙ ap (λ k. (oldest log + k) % audit_capacity) (sym v.ring.counted) in
      let short : ltb log.total_count audit_capacity ≡ true =
        sym (ring_count-lt log) ∙ ground (arith, v.ring.counted) in
      let moved = oldest-store log e fits at in
      let counted = ring_count-store log e fits in
      record {
        ring =
            Ring-cast (ground arith) (wrap_next log.write_pos (omega (arith, v.ring.tail_at)))
              (ground (arith, v.ring.counted)) (Ring-push e v.ring room);
        start = v.start;
        linked = Linked-append v.start log.prev_hash es e v.linked q d;
      }

  store_full-Logged :
      (log : AuditLog) (es : List AuditEntry) (e : AuditEntry)
      → Logged log es
      → log.total_count + 1 < u64_mod
      → e.prev_hash ≡ log.prev_hash
      → e.hash ≡ digest crypto e
      → audit_capacity ≤ length es
      → Logged (store_entry crypto log e) (drop 1 es ++ e ∷ [])
  unfolding store_entry
  store_full-Logged log [] e v fits q d full = absurd (omega arith)
  store_full-Logged log (x ∷ es) e v fits q d full =
      let at = v.ring.tail_at ∙ ap (λ k. (oldest log + k) % audit_capacity) (sym v.ring.counted) in
      let long : ltb log.total_count audit_capacity ≡ false =
        sym (ring_count-lt log) ∙ ground (arith, v.ring.counted) in
      let moved = oldest-store log e fits at in
      let counted = ring_count-store log e fits in
      record {
        ring =
            Ring-cast (ground arith) (wrap_next log.write_pos (omega (arith, v.ring.tail_at)))
              (ground (arith, v.ring.counted, v.ring.bounded))
              (Ring-push e (Ring-advance v.ring) (omega (arith, v.ring.bounded)));
        start = x.hash;
        linked = Linked-append x.hash log.prev_hash es e v.linked.2 q d;
      }

  store_entry-Logged :
      (log : AuditLog) (es : List AuditEntry) (e : AuditEntry)
      → Logged log es
      → log.total_count + 1 < u64_mod
      → e.prev_hash ≡ log.prev_hash
      → e.hash ≡ digest crypto e
      → Logged (store_entry crypto log e) (keep_last es e)
  store_entry-Logged log es e v fits q d = elim (Bool-cases (ltb (length es) audit_capacity)) [
    | inl room ↦ rw room (store_room-Logged log es e v fits q d (ltb→lt _ _ room))
    | inr full ↦ rw full (store_full-Logged log es e v fits q d (ground arith))
  ]

  -- Appending keeps a sound log sound: the log holds the last 512 entries, the new one last, and each
  -- is linked to the one before it.
  pub append-Logged :
      (log : AuditLog) (es : List AuditEntry) (actor : ℕ) (action : AuditAction)
      (target msg_type capability_id msg_sequence timestamp : ℕ)
      → Logged log es
      → log.total_count + 1 < u64_mod
      → Logged
          (append crypto log actor action target msg_type capability_id msg_sequence timestamp)
          (keep_last es (
            chained_entry crypto log actor action target msg_type capability_id msg_sequence
              timestamp))
  unfolding append
  append-Logged log es actor action target msg_type capability_id msg_sequence timestamp v fits =
      store_entry-Logged log es
        (chained_entry crypto log actor action target msg_type capability_id msg_sequence timestamp)
        v fits (unfold chained_entry in refl)
        (unfold chained_entry digest hash_input hashable_bytes in refl)
