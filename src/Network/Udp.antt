-- ===== src/Network/Udp.antt =====
-- kernel/src/network/udp.rs: the UDP header and the building of a packet.
pub mod Datagram
use fabric_os.Base.{
  ℕ, zero, suc, ◌+◌, ◌-◌, ◌/◌, ◌%◌, List, [], ◌∷◌, Option, none, some, ltb, not, ◌==◌,
  if◌then◌else◌, length, take, drop,
}
use fabric_os.Base.Words.{add16, u16_mod}
use fabric_os.Network.Checksum.{pseudo_header_checksum}
use fabric_os.Network.Ip
use fabric_os.Network.Ip.{Address, ip_size, from_be}

pub record UdpHeader : Type 0 where
  pub src_port : ℕ
  pub dst_port : ℕ
  pub datagram_length : ℕ
  pub checksum : ℕ

-- `UdpHeader::SIZE`
abbrev pub udp_size : ℕ
udp_size = 8

unfoldable pub new : ℕ → ℕ → ℕ → UdpHeader
new src_port dst_port data_len = record {
  src_port = src_port;
  dst_port = dst_port;
  datagram_length = add16 udp_size data_len;
  checksum = 0;
}

unfoldable pub to_bytes : UdpHeader → List ℕ
to_bytes h =
    (h.src_port / 256)
    ∷ (h.src_port % 256)
    ∷ (h.dst_port / 256)
    ∷ (h.dst_port % 256)
    ∷ (h.datagram_length / 256)
    ∷ (h.datagram_length % 256)
    ∷ (h.checksum / 256)
    ∷ (h.checksum % 256)
    ∷ []

unfoldable pub from_bytes : List ℕ → Option UdpHeader
from_bytes bytes =
    if ltb (length bytes) udp_size
    then none
    else some (record {
      src_port = from_be bytes 0;
      dst_port = from_be bytes 2;
      datagram_length = from_be bytes 4;
      checksum = from_be bytes 6;
    })

-- `buf[at..at + bytes.len()].copy_from_slice(bytes)`, inside the buffer.
unfoldable pub copy_at : List ℕ → ℕ → List ℕ → List ℕ
copy_at [] start bytes = []
copy_at (x ∷ buf) zero [] = x ∷ buf
copy_at (x ∷ buf) zero (b ∷ bytes) = b ∷ copy_at buf zero bytes
copy_at (x ∷ buf) (suc start) bytes = x ∷ copy_at buf start bytes

-- The buffer with the three parts in it, and then the header once more with its checksum.
unfoldable pub fill_packet : Address × ℕ → Address × ℕ → List ℕ → List ℕ → ℕ → List ℕ
fill_packet src dst payload buf udp_len =
    let ip = Ip.new src.0 dst.0 17 udp_len in
    let udp = new src.1 dst.1 (length payload % u16_mod) in
    let segment =
      copy_at (copy_at (copy_at buf 0 (Ip.to_bytes ip)) ip_size (to_bytes udp)) 28 payload in
    let chk = pseudo_header_checksum src.0 dst.0 17 udp_len (take udp_len (drop ip_size segment)) in
    copy_at segment ip_size (to_bytes (record udp { checksum = chk }))

-- The buffer and the length of the packet. `none` is the panic of `copy_from_slice`, where the
-- length of the data does not fit 16 bits.
unfoldable pub build_udp_packet : Address × ℕ → Address × ℕ → List ℕ → List ℕ → Option (List ℕ × ℕ)
build_udp_packet src dst payload buf =
    let udp_len = add16 udp_size (length payload % u16_mod) in
    let total = ip_size + udp_len in
    if ltb (length buf) total
    then some (buf, 0)
    else if not (total == 28 + length payload)
    then none
    else some (fill_packet src dst payload buf udp_len, total)
