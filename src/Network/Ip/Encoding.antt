-- ===== src/Network/Ip/Encoding.antt =====
-- kernel/src/network/ip.rs: what is written is read, and a new header passes verification.
use fabric_os.Base.{ℕ, ◌/◌, ◌%◌, ◌≡◌, List, [], ◌∷◌, ◌++◌, some, true, arith}
use fabric_os.Base.Words.{add16}
use fabric_os.Network.Checksum.{verify_checksum}
use fabric_os.Network.Checksum.Embedded.{IsByte, verify_checksum-internet_checksum}
use fabric_os.Network.Ip.{
  Address, Ipv4Header, to_bytes, from_bytes, byte, from_be, put, new, compute_checksum,
  to_bytes_no_checksum,
}

-- A header is read from the bytes that it was written to, whatever follows them.
pub from_bytes-to_bytes :
    (h : Ipv4Header) (rest : List ℕ) → from_bytes (to_bytes h ++ rest) ≡ some h
unfolding from_bytes to_bytes byte from_be
from_bytes-to_bytes h rest = ground arith

abbrev pub IsAddress : Address → Type 0
IsAddress a = IsByte a.0 × IsByte a.1 × IsByte a.2 × IsByte a.3

-- The header that `new` builds passes the verification of its checksum.
pub new-verify_checksum :
    (src dst : Address) (protocol payload_len : ℕ)
    → IsAddress src
    → IsAddress dst
    → IsByte protocol
    → verify_checksum (to_bytes (new src dst protocol payload_len)) ≡ true
unfolding to_bytes new compute_checksum to_bytes_no_checksum put
new-verify_checksum src dst protocol len s d p =
    let total = add16 20 len in
    verify_checksum-internet_checksum
      (69 ∷ 0 ∷ (total / 256) ∷ (total % 256) ∷ 0 ∷ 0 ∷ 64 ∷ 0 ∷ 64 ∷ protocol ∷ [])
      (src.0 ∷ src.1 ∷ src.2 ∷ src.3 ∷ dst.0 ∷ dst.1 ∷ dst.2 ∷ dst.3 ∷ []) tt (ground (arith))
      (s.0, (s.1, (s.2, (s.3, (d.0, (d.1, (d.2, (d.3, tt)))))))) (omega arith)
