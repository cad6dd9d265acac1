-- ===== src/Network/Ip.antt =====
-- kernel/src/network/ip.rs: the IPv4 header without options.
pub mod Encoding
use fabric_os.Base.{
  ℕ, zero, suc, ◌+◌, ◌-◌, ◌*◌, ◌/◌, ◌%◌, List, [], ◌∷◌, Option, none, some, ltb, if◌then◌else◌,
  length,
}
use fabric_os.Base.Words.{add16}
use fabric_os.Network.Checksum.{internet_checksum}

abbrev pub Address : Type 0
Address = ℕ × ℕ × ℕ × ℕ

pub record Ipv4Header : Type 0 where
  pub version_ihl : ℕ
  pub tos : ℕ
  pub total_length : ℕ
  pub identification : ℕ
  pub flags_fragment : ℕ
  pub ttl : ℕ
  pub protocol : ℕ
  pub checksum : ℕ
  pub src_addr : Address
  pub dst_addr : Address

-- `Ipv4Header::SIZE`
abbrev pub ip_size : ℕ
ip_size = 20

-- `to_be_bytes` gives the high byte and the low one.
unfoldable pub to_bytes : Ipv4Header → List ℕ
to_bytes h =
    h.version_ihl
    ∷ h.tos
    ∷ (h.total_length / 256)
    ∷ (h.total_length % 256)
    ∷ (h.identification / 256)
    ∷ (h.identification % 256)
    ∷ (h.flags_fragment / 256)
    ∷ (h.flags_fragment % 256)
    ∷ h.ttl
    ∷ h.protocol
    ∷ (h.checksum / 256)
    ∷ (h.checksum % 256)
    ∷ h.src_addr.0
    ∷ h.src_addr.1
    ∷ h.src_addr.2
    ∷ h.src_addr.3
    ∷ h.dst_addr.0
    ∷ h.dst_addr.1
    ∷ h.dst_addr.2
    ∷ h.dst_addr.3
    ∷ []

-- `buf[i] = b`, inside the buffer.
unfoldable pub put : List ℕ → ℕ → ℕ → List ℕ
put [] i b = []
put (x ∷ buf) zero b = b ∷ buf
put (x ∷ buf) (suc i) b = x ∷ put buf i b

unfoldable pub to_bytes_no_checksum : Ipv4Header → List ℕ
to_bytes_no_checksum h = put (put (to_bytes h) 10 0) 11 0

unfoldable pub compute_checksum : Ipv4Header → ℕ
compute_checksum h = internet_checksum (to_bytes_no_checksum h)

unfoldable pub new : Address → Address → ℕ → ℕ → Ipv4Header
new src dst protocol payload_len =
    let hdr : Ipv4Header = record {
      version_ihl = 69;
      tos = 0;
      total_length = add16 ip_size payload_len;
      identification = 0;
      flags_fragment = 16384;
      ttl = 64;
      protocol = protocol;
      checksum = 0;
      src_addr = src;
      dst_addr = dst;
    } in
    record hdr { checksum = compute_checksum hdr }

-- `data[i]`, inside the data.
unfoldable pub byte : List ℕ → ℕ → ℕ
byte [] i = 0
byte (x ∷ bytes) zero = x
byte (x ∷ bytes) (suc i) = byte bytes i

-- `u16::from_be_bytes` of the bytes at `i` and after it.
unfoldable pub from_be : List ℕ → ℕ → ℕ
from_be bytes i = byte bytes i * 256 + byte bytes (suc i)

unfoldable pub from_bytes : List ℕ → Option Ipv4Header
from_bytes bytes =
    if ltb (length bytes) ip_size
    then none
    else some (record {
      version_ihl = byte bytes 0;
      tos = byte bytes 1;
      total_length = from_be bytes 2;
      identification = from_be bytes 4;
      flags_fragment = from_be bytes 6;
      ttl = byte bytes 8;
      protocol = byte bytes 9;
      checksum = from_be bytes 10;
      src_addr = (byte bytes 12, byte bytes 13, byte bytes 14, byte bytes 15);
      dst_addr = (byte bytes 16, byte bytes 17, byte bytes 18, byte bytes 19);
    })

unfoldable pub payload_len : Ipv4Header → ℕ
payload_len h = h.total_length - ip_size
