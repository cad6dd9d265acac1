-- ===== src/Bus/Audit/Verify.antt =====
-- kernel/src/bus/audit.rs: verification passes on what `append` builds.
use fabric_os.Base.{
  ℕ, suc, ◌+◌, ◌%◌, ◌<◌, ◌≤◌, ◌≡◌, refl, ap, ◌∙◌, true, false, List, [], ◌∷◌, Option, some, length,
  arith, min, length-append, subst,
}
use fabric_os.Base.Bytes.{bytes_eq_iff}
use fabric_os.Base.Slots.{Holds}
use fabric_os.Base.Words.{u64_mod}
use fabric_os.Crypto.{Crypto}
use fabric_os.Wire.Audit.{AuditEntry, AuditAction, zero_hash}
use fabric_os.Bus.Audit.{
  AuditLog, audit_capacity, new, ring_count, oldest, digest, chained_entry, append, verify_from,
  verify_chain,
}
use fabric_os.Bus.Audit.Chain.{next_index, Linked, Logged, new-Logged, keep_last, append-Logged}

module _ (crypto : Crypto) where
  -- An entry accepts its own hash before it.
  pub verify_from_first :
      (entries : ℕ → Option AuditEntry) (start i k v : ℕ) (p : List ℕ) (e : AuditEntry)
      → entries ((start + i) % audit_capacity) ≡ some e
      → verify_from crypto entries start i (suc k) v p true
        ≡ verify_from crypto entries start i (suc k) v e.prev_hash false
  unfolding verify_from
  verify_from_first entries start i k v p e h = ground (arith, h)

  verify_from-Linked :
      (es : List AuditEntry) (entries : ℕ → Option AuditEntry) (start i v : ℕ) (p : List ℕ)
      → Holds audit_capacity entries ((start + i) % audit_capacity) es
      → (l : List ℕ) → Linked crypto p es l
      → verify_from crypto entries start i (length es) v p false ≡ (v + length es, true)
  unfolding verify_from
  verify_from-Linked [] entries start i v p h l k = ground arith
  verify_from-Linked (e ∷ es) entries start i v p h l k = ground (
    arith,
    h.0,
    (bytes_eq_iff e.prev_hash p).1,
    (bytes_eq_iff e.hash (digest crypto e)).1,
    verify_from-Linked es entries start (i + 1) (v + 1) e.hash
        (subst (λ j. Holds audit_capacity entries j es) (next_index start i) h.1) l k.2,
  )

  verify_oldest :
      (log : AuditLog) (e : AuditEntry) (es : List AuditEntry)
      → Logged crypto log (e ∷ es)
      → verify_from crypto log.entries (oldest log) 0 (ring_count log) 0 zero_hash true
        ≡ (length (e ∷ es), true)
  verify_oldest log e es v =
      let start : oldest log ≡ (oldest log + 0) % audit_capacity = omega (arith, v.ring.head_in) in
      let held = subst (λ j. Holds audit_capacity log.entries j (e ∷ es)) start v.ring.held in
      ap (λ k. verify_from crypto log.entries (oldest log) 0 k 0 zero_hash true) v.ring.counted
      ∙ verify_from_first log.entries (oldest log) 0 (length es) 0 zero_hash e held.0
      ∙ verify_from-Linked (e ∷ es) log.entries (oldest log) 0 0 e.prev_hash held log.prev_hash
          (refl, v.linked.1, v.linked.2)
      ∙ ground arith

  -- A sound log passes: `verify_chain` goes through all its entries and finds them linked.
  pub verify_chain-Logged :
      (log : AuditLog) (es : List AuditEntry)
      → Logged crypto log es
      → verify_chain crypto log ≡ (length es, true)
  unfolding verify_chain
  verify_chain-Logged log [] v = ground (arith, v.ring.counted)
  verify_chain-Logged log (e ∷ es) v = ground (arith, v.ring.counted, verify_oldest log e es v)

-- The arguments of one call of `append`.
pub record Event : Type 0 where
  pub actor : ℕ
  pub action : AuditAction
  pub target : ℕ
  pub msg_type : ℕ
  pub capability_id : ℕ
  pub msg_sequence : ℕ
  pub timestamp : ℕ

module _ (crypto : Crypto) where
  pub append_all : AuditLog → List Event → AuditLog
  append_all log [] = log
  append_all log (v ∷ vs) =
      append_all
        (append crypto log v.actor v.action v.target v.msg_type v.capability_id v.msg_sequence
          v.timestamp)
        vs

  total_count-append :
      (log : AuditLog) (v : Event)
      → log.total_count + 1 < u64_mod
      → (append crypto log v.actor v.action v.target v.msg_type v.capability_id v.msg_sequence
          v.timestamp).total_count
        ≡ log.total_count + 1
  unfolding append
  total_count-append log v fits = omega arith

  length-keep_last :
      (es : List AuditEntry) (e : AuditEntry)
      → length es ≤ audit_capacity
      → length (keep_last crypto es e) ≡ min (length es + 1) audit_capacity
  length-keep_last [] e h = refl
  length-keep_last (x ∷ es) e h =
      ground (arith, length-append (x ∷ es) (e ∷ []), length-append es (e ∷ []))

  append_all-Logged :
      (vs : List Event) (log : AuditLog) (es : List AuditEntry)
      → Logged crypto log es
      → log.total_count + length vs < u64_mod
      → (fs : List AuditEntry) × Logged crypto (append_all log vs) fs
        × (length fs ≡ min (length es + length vs) audit_capacity)
  unfolding append_all
  append_all-Logged [] log es v fits = (es, v, omega (arith, v.ring.bounded))
  append_all-Logged (w ∷ vs) log es v fits =
      let e =
        chained_entry crypto log w.actor w.action w.target w.msg_type w.capability_id w.msg_sequence
          w.timestamp in
      let next =
        append-Logged crypto log es w.actor w.action w.target w.msg_type w.capability_id
          w.msg_sequence w.timestamp v (omega arith) in
      let (fs, held, n) =
        append_all-Logged vs _ (keep_last crypto es e) next
          (omega (arith, total_count-append log w (omega arith))) in
      (fs, held, n ∙ omega (arith, length-keep_last es e v.ring.bounded))

  -- Whatever events are appended to a new log, fewer than 2^64 of them, verification passes and
  -- counts the entries, up to 512.
  pub verify_chain-append_all :
      (vs : List Event)
      → length vs < u64_mod
      → verify_chain crypto (append_all new vs) ≡ (min (length vs) audit_capacity, true)
  verify_chain-append_all vs fits =
      let (fs, held, n) =
        append_all-Logged vs new [] (new-Logged crypto) (unfold new in omega arith) in
      verify_chain-Logged crypto (append_all new vs) fs held ∙ ap (λ k. (k, true)) (n ∙ omega arith)
