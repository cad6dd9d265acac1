-- ===== src/Tests/Packets.antt =====
-- The theorems on packets, at small ones.
use fabric_os.Base.{ℕ, ◌≡◌, true, List, [], ◌∷◌, some, arith, take, drop, replicate}
use fabric_os.Network.Checksum.{verify_checksum}
use fabric_os.Network.Ip
use fabric_os.Network.Ip.{Address}
use fabric_os.Network.Ip.Encoding.{IsAddress, new-verify_checksum}
use fabric_os.Network.Udp
use fabric_os.Network.Udp.{build_udp_packet}
use fabric_os.Network.Udp.Datagram.{sealed, build_udp_packet-from_bytes}

abbrev loopback : Address
loopback = (127, 0, 0, 1)

loopback-IsAddress : IsAddress loopback
loopback-IsAddress = (omega arith, omega arith, omega arith, omega arith)

new-verify_checksum_example : verify_checksum (Ip.to_bytes (Ip.new loopback loopback 6 40)) ≡ true
new-verify_checksum_example =
    new-verify_checksum loopback loopback 6 40 loopback-IsAddress loopback-IsAddress (omega arith)

abbrev question : List ℕ
question = 104 ∷ 105 ∷ []

build_udp_packet-from_bytes_example :
    (out : List ℕ) × (build_udp_packet (loopback, 4000) (loopback, 53) question (replicate 64 0)
      ≡ some (out, 30))
    × (Ip.from_bytes out ≡ some (Ip.new loopback loopback 17 10))
    × (let ip = Ip.new loopback loopback 17 10 in
        (ip.total_length ≡ 30)
        × (ip.protocol ≡ 17)
        × (ip.src_addr ≡ loopback)
        × (ip.dst_addr ≡ loopback))
    × (Udp.from_bytes (drop 20 out) ≡ some (sealed (loopback, 4000) (loopback, 53) question))
    × (take 2 (drop 28 out) ≡ question)
build_udp_packet-from_bytes_example =
    build_udp_packet-from_bytes (loopback, 4000) (loopback, 53) question (replicate 64 0)
      (omega arith) (omega arith)
