-- ===== src/Network/Ethernet.antt =====
-- kernel/src/network/ethernet.rs: Ethernet II frames. An address of the hardware is six bytes.
pub mod Framing
use fabric_os.Base.{
  ℕ, ◌/◌, ◌%◌, List, [], ◌∷◌, ◌++◌, Option, none, some, ltb, if◌then◌else◌, length, take, drop,
}
use fabric_os.Network.Ip.{byte, from_be, put}

pub record EthernetFrame : Type 0 where
  pub dst_mac : List ℕ
  pub src_mac : List ℕ
  pub ethertype : ℕ
  pub payload : List ℕ

unfoldable pub build : List ℕ → List ℕ → ℕ → List ℕ → List ℕ
build dst_mac src_mac ethertype payload =
    dst_mac ++ (src_mac ++ (ethertype / 256) ∷ (ethertype % 256) ∷ payload)

unfoldable pub parse : List ℕ → Option EthernetFrame
parse bytes =
    if ltb (length bytes) 14
    then none
    else some (record {
      dst_mac = take 6 bytes;
      src_mac = take 6 (drop 6 bytes);
      ethertype = from_be bytes 12;
      payload = drop 14 bytes;
    })

unfoldable pub header_bytes : EthernetFrame → List ℕ
header_bytes f = f.dst_mac ++ (f.src_mac ++ (f.ethertype / 256) ∷ (f.ethertype % 256) ∷ [])
