-- ===== src/Bus/Audit/Tamper.antt =====
-- kernel/src/bus/audit.rs: what `verify_chain` finds out about a log whose entries were changed.
use fabric_os.Base.{
  ℕ, ◌+◌, ◌%◌, ◌<◌, ◌≡◌, refl, sym, ap, ◌∙◌, ◌↔◌, ◌≢◌, ◌⊎◌, inl, inr, true, false, List, [], ◌∷◌,
  ◌++◌, Option, length, arith, Bool-cases, subst,
}
use fabric_os.Base.Bytes.{to_le-append_injective, bytes_eq, bytes_eq_iff}
use fabric_os.Base.Slots.{Holds}
use fabric_os.Crypto.{Crypto}
use fabric_os.Wire.Audit.{AuditEntry, EntryFits, zero_hash}
use fabric_os.Wire.Encoding.{SameEntry, hashable_bytes-append_injective}
use fabric_os.Bus.Audit.{
  AuditLog, audit_capacity, ring_count, oldest, hash_input, digest, verify_from, verify_chain,
}
use fabric_os.Bus.Audit.Chain.{next_index}
use fabric_os.Bus.Audit.Verify.{verify_from_first}

-- All fields but the hash.
abbrev pub SameRecord : AuditEntry → AuditEntry → Type 0
SameRecord d e =
    SameEntry d e × (d.capability_id ≡ e.capability_id) × (d.msg_sequence ≡ e.msg_sequence)

-- The bytes that are hashed determine every field of the entry but the hash itself.
hash_input-injective :
    (d e : AuditEntry) → EntryFits d → EntryFits e → hash_input d ≡ hash_input e → SameRecord d e
unfolding hash_input
hash_input-injective d e p q h =
    let (same, tail_eq) = hashable_bytes-append_injective d e _ _ p q h in
    let (cap, last) =
      to_le-append_injective 8 d.capability_id e.capability_id _ _ (omega arith) (omega arith)
        tail_eq in
    let (seq, _) =
      to_le-append_injective 8 d.msg_sequence e.msg_sequence _ _ (omega arith) (omega arith) last in
    (same, cap, seq)

module _ (crypto : Crypto) where
  -- From `p` on, each entry names the hash before it and carries its own digest.
  abbrev pub LinkedFrom : List ℕ → List AuditEntry → Type 0
  LinkedFrom p [] = Unit {0}
  LinkedFrom p (e ∷ es) = (e.prev_hash ≡ p) × (e.hash ≡ digest crypto e) × LinkedFrom e.hash es

  -- The oldest entry is trusted to name the hash before it.
  abbrev pub LinkedAll : List AuditEntry → Type 0
  LinkedAll [] = Unit {0}
  LinkedAll (e ∷ es) = (e.hash ≡ digest crypto e) × LinkedFrom e.hash es

  -- What the slots of the ring hold, oldest first.
  pub record Stored (log : AuditLog) (es : List AuditEntry) : Type 0 where
    pub held : Holds audit_capacity log.entries (oldest log) es
    pub oldest_in : oldest log < audit_capacity
    pub counted : ring_count log ≡ length es

  verify_from_iff :
      (es : List AuditEntry) (entries : ℕ → Option AuditEntry) (start i v : ℕ) (p : List ℕ)
      → Holds audit_capacity entries ((start + i) % audit_capacity) es
      → ((verify_from crypto entries start i (length es) v p false).1 ≡ true) ↔ LinkedFrom p es
  unfolding verify_from
  verify_from_iff [] entries start i v p h = (λ a. tt, λ a. refl)
  verify_from_iff (e ∷ es) entries start i v p h = ground (
    arith,
    h.0,
    bytes_eq_iff e.prev_hash p,
    bytes_eq_iff e.hash (digest crypto e),
    verify_from_iff es entries start (i + 1) (v + 1) e.hash
        (subst (λ j. Holds audit_capacity entries j es) (next_index start i) h.1),
  )

  verify-Stored :
      (log : AuditLog) (e : AuditEntry) (es : List AuditEntry)
      → Stored log (e ∷ es)
      → ((verify_from crypto log.entries (oldest log) 0 (ring_count log) 0 zero_hash true).1 ≡ true)
        ↔ LinkedAll (e ∷ es)
  verify-Stored log e es v =
      let start : oldest log ≡ (oldest log + 0) % audit_capacity = omega (arith, v.oldest_in) in
      let held = subst (λ j. Holds audit_capacity log.entries j (e ∷ es)) start v.held in
      let first =
        ap (λ k. verify_from crypto log.entries (oldest log) 0 k 0 zero_hash true) v.counted
        ∙ verify_from_first crypto log.entries (oldest log) 0 (length es) 0 zero_hash e held.0 in
      ground (arith, first, verify_from_iff (e ∷ es) log.entries (oldest log) 0 0 e.prev_hash held)

  -- For a log whose ring holds the listed entries, verification passes exactly when each stored
  -- entry has the hash of its bytes and names the hash of the entry before it, the oldest being
  -- trusted.
  pub verify_chain_iff :
      (log : AuditLog) (es : List AuditEntry)
      → Stored log es
      → ((verify_chain crypto log).1 ≡ true) ↔ LinkedAll es
  unfolding verify_chain
  verify_chain_iff log [] v = ground (arith, v.counted)
  verify_chain_iff log (e ∷ es) v = ground (arith, v.counted, verify-Stored log e es v)

  LinkedFrom-middle :
      (p : List ℕ) (xs ys : List AuditEntry) (e : AuditEntry)
      → LinkedFrom p (xs ++ e ∷ ys)
      → e.hash ≡ digest crypto e
  LinkedFrom-middle p [] ys e k = k.1
  LinkedFrom-middle p (x ∷ xs) ys e k = LinkedFrom-middle x.hash xs ys e k.2

  LinkedAll-middle :
      (xs ys : List AuditEntry) (e : AuditEntry)
      → LinkedAll (xs ++ e ∷ ys)
      → e.hash ≡ digest crypto e
  LinkedAll-middle [] ys e k = k.0
  LinkedAll-middle (x ∷ xs) ys e k = LinkedFrom-middle x.hash xs ys e k.1

  -- If one entry of a log is replaced, with the same stored hash, the fields fit their words and
  -- both logs pass verification, then the two entries have the same fields or the hash has a
  -- collision.
  pub replaced_entry :
      (log log' : AuditLog) (xs ys : List AuditEntry) (e f : AuditEntry)
      → Stored log (xs ++ e ∷ ys)
      → Stored log' (xs ++ f ∷ ys)
      → (verify_chain crypto log).1 ≡ true
      → (verify_chain crypto log').1 ≡ true
      → e.hash ≡ f.hash
      → EntryFits e
      → EntryFits f
      → SameRecord e f
        ⊎ ((hash_input e ≢ hash_input f)
            × (crypto.sha3_256 (hash_input e) ≡ crypto.sha3_256 (hash_input f)))
  unfolding digest
  replaced_entry log log' xs ys e f v w p q same fe ff =
      let he = LinkedAll-middle xs ys e ((verify_chain_iff log (xs ++ e ∷ ys) v).0 p) in
      let hf = LinkedAll-middle xs ys f ((verify_chain_iff log' (xs ++ f ∷ ys) w).0 q) in
      elim (Bool-cases (bytes_eq (hash_input e) (hash_input f))) [
        | inl eq ↦ inl (hash_input-injective e f fe ff ((bytes_eq_iff _ _).0 eq))
        | inr ne ↦ inr (λ eq. cc ((bytes_eq_iff _ _).1 eq), sym he ∙ same ∙ hf)
      ]
