-- ===== src/Wire/Encoding.antt =====
-- What is signed or hashed determines the fields: no two headers, tokens or audit entries that differ
-- in a covered field have the same bytes.
use fabric_os.Base.{
  ℕ, suc, ◌<◌, ◌≡◌, refl, List, [], ◌∷◌, ◌++◌, arith, replicate, ap, get_elem?, none, some, sym,
  ◌∙◌, zero, append_injective,
}
use mathlib.Core.List.{append_assoc}
use fabric_os.Base.Bytes.{to_le-append_injective}
use fabric_os.Wire.Header.{MessageHeader, HeaderFits, header_bytes}
use fabric_os.Wire.Audit.{AuditEntry, AuditAction, EntryFits, hashable_bytes, action_code}
use fabric_os.Wire.Audit.{
  message_sent, message_delivered, message_rejected, cap_validated, cap_denied, sequence_violation,
  hmac_failure, queue_full, monitor_notify, policy_violation,
}
use fabric_os.Wire.Token.{CapabilityToken, TokenFits, token_bytes}

-- The fields that `active_bytes` of a header covers.
abbrev pub SameHeader : MessageHeader → MessageHeader → Type 0
SameHeader g h =
    (g.version ≡ h.version)
    × (g.msg_type ≡ h.msg_type)
    × (g.sender ≡ h.sender)
    × (g.receiver ≡ h.receiver)
    × (g.payload_len ≡ h.payload_len)
    × (g.capability_id ≡ h.capability_id)
    × (g.sequence ≡ h.sequence)
    × (g.timestamp ≡ h.timestamp)

-- Two headers whose fields fit their words and that have the same 40 active bytes agree in every
-- active field.
pub header_bytes-injective :
    (g h : MessageHeader)
    → HeaderFits g
    → HeaderFits h
    → header_bytes g ≡ header_bytes h
    → SameHeader g h
unfolding header_bytes
header_bytes-injective g h p q e =
    let a = to_le-append_injective 2 g.version h.version _ _ (omega arith) (omega arith) e in
    let b = to_le-append_injective 2 g.msg_type h.msg_type _ _ (omega arith) (omega arith) a.1 in
    let c = to_le-append_injective 4 g.sender h.sender _ _ (omega arith) (omega arith) b.1 in
    let d = to_le-append_injective 4 g.receiver h.receiver _ _ (omega arith) (omega arith) c.1 in
    let f =
      to_le-append_injective 4 g.payload_len h.payload_len _ _ (omega arith) (omega arith) d.1 in
    let i =
      to_le-append_injective 8 g.capability_id h.capability_id _ _ (omega arith) (omega arith)
        f.1 in
    let j = to_le-append_injective 8 g.sequence h.sequence _ _ (omega arith) (omega arith) i.1 in
    let k = to_le-append_injective 8 g.timestamp h.timestamp _ _ (omega arith) (omega arith) j.1 in
    (a.0, b.0, c.0, d.0, f.0, i.0, j.0, k.0)

-- The fields that `active_bytes` of a token covers.
abbrev pub SameToken : CapabilityToken → CapabilityToken → Type 0
SameToken s t =
    (s.version ≡ t.version)
    × (s.permissions ≡ t.permissions)
    × (s.owner ≡ t.owner)
    × (s.id ≡ t.id)
    × (s.resource ≡ t.resource)
    × (s.delegated_from ≡ t.delegated_from)
    × (s.nonce ≡ t.nonce)
    × (s.expires ≡ t.expires)

-- Two tokens whose fields fit their words and that have the same 40 active bytes agree in every
-- active field.
pub token_bytes-injective :
    (s t : CapabilityToken)
    → TokenFits s
    → TokenFits t
    → token_bytes s ≡ token_bytes t
    → SameToken s t
unfolding token_bytes
token_bytes-injective s t p q e =
    let a = to_le-append_injective 2 s.version t.version _ _ (omega arith) (omega arith) e in
    let b =
      to_le-append_injective 2 s.permissions t.permissions _ _ (omega arith) (omega arith) a.1 in
    let c = to_le-append_injective 4 s.owner t.owner _ _ (omega arith) (omega arith) b.1 in
    let d = to_le-append_injective 8 s.id t.id _ _ (omega arith) (omega arith) c.1 in
    let f = to_le-append_injective 8 s.resource t.resource _ _ (omega arith) (omega arith) d.1 in
    let i =
      to_le-append_injective 8 s.delegated_from t.delegated_from _ _ (omega arith) (omega arith)
        f.1 in
    let j = to_le-append_injective 4 s.nonce t.nonce _ _ (omega arith) (omega arith) i.1 in
    let k = to_le-append_injective 4 s.expires t.expires _ _ (omega arith) (omega arith) j.1 in
    (a.0, b.0, c.0, d.0, f.0, i.0, j.0, k.0)

action_of : ℕ → AuditAction
action_of c = elim (get_elem? actions c) [ none ↦ message_sent | some a ↦ a ]
  where
    actions : List AuditAction
    actions =
        message_sent ∷ message_sent ∷ message_delivered ∷ message_rejected ∷ cap_validated
        ∷ cap_denied ∷ sequence_violation ∷ hmac_failure ∷ queue_full ∷ monitor_notify
        ∷ policy_violation ∷ []

action_of-action_code : (a : AuditAction) → action_of (action_code a) ≡ a
unfolding action_of action_code
action_of-action_code message_sent = refl
action_of-action_code message_delivered = refl
action_of-action_code message_rejected = refl
action_of-action_code cap_validated = refl
action_of-action_code cap_denied = refl
action_of-action_code sequence_violation = refl
action_of-action_code hmac_failure = refl
action_of-action_code queue_full = refl
action_of-action_code monitor_notify = refl
action_of-action_code policy_violation = refl

-- Each discriminant is a byte, and no two actions share one.
action_code-lt : (a : AuditAction) → action_code a < 256
unfolding action_code
action_code-lt a = ground arith

action_code-injective : (a b : AuditAction) → action_code a ≡ action_code b → a ≡ b
action_code-injective a b e =
    sym (action_of-action_code a) ∙ ap action_of e ∙ action_of-action_code b

-- The fields that `hashable_bytes` covers.
abbrev pub SameEntry : AuditEntry → AuditEntry → Type 0
SameEntry d e =
    (d.sequence ≡ e.sequence)
    × (d.timestamp ≡ e.timestamp)
    × (d.actor ≡ e.actor)
    × (d.action ≡ e.action)
    × (d.target ≡ e.target)
    × (d.msg_type ≡ e.msg_type)
    × (d.prev_hash ≡ e.prev_hash)

zeros-append_injective :
    (n : ℕ) (xs ys : List ℕ) → replicate n 0 ++ xs ≡ replicate n 0 ++ ys → xs ≡ ys
zeros-append_injective zero xs ys e = e
zeros-append_injective (suc n) xs ys e = zeros-append_injective n xs ys (cc)

-- Two audit entries whose hashed bytes agree, with what follows them, agree in every hashed field.
pub hashable_bytes-append_injective :
    (d e : AuditEntry) (xs ys : List ℕ)
    → EntryFits d
    → EntryFits e
    → hashable_bytes d ++ xs ≡ hashable_bytes e ++ ys
    → SameEntry d e × (xs ≡ ys)
unfolding hashable_bytes
hashable_bytes-append_injective d e xs ys p q h =
    let flat = simp append_assoc at h in
    let a = to_le-append_injective 8 d.sequence e.sequence _ _ (omega arith) (omega arith) flat in
    let b = to_le-append_injective 8 d.timestamp e.timestamp _ _ (omega arith) (omega arith) a.1 in
    let c = to_le-append_injective 4 d.actor e.actor _ _ (omega arith) (omega arith) b.1 in
    let f =
      to_le-append_injective 1 (action_code d.action) (action_code e.action) _ _
        (action_code-lt d.action) (action_code-lt e.action) c.1 in
    let g =
      to_le-append_injective 4 d.target e.target _ _ (omega arith) (omega arith)
        (zeros-append_injective 3 _ _ f.1) in
    let i = to_le-append_injective 2 d.msg_type e.msg_type _ _ (omega arith) (omega arith) g.1 in
    let j =
      append_injective d.prev_hash e.prev_hash xs ys (omega arith)
        (zeros-append_injective 2 _ _ i.1) in
    ((a.0, b.0, c.0, action_code-injective _ _ f.0, g.0, i.0, j.0), j.1)
