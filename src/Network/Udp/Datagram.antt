-- ===== src/Network/Udp/Datagram.antt =====
-- kernel/src/network/udp.rs: a datagram that is built is read back.
use fabric_os.Base.{
  ◌/◌, ◌<◌, ℕ, zero, suc, ◌+◌, ◌-◌, ◌%◌, ◌≤◌, ◌≡◌, refl, ap, ◌∙◌, List, [], ◌∷◌, ◌++◌, some, length,
  take, drop, arith,
}
use fabric_os.Base.Words.{add16, u16_mod}
use fabric_os.Network.Checksum.{pseudo_header_checksum, internet_checksum}
use fabric_os.Network.Checksum.Pseudo.{pseudo_header, pseudo_header_checksum-internet_checksum}
use fabric_os.Network.Ip
use fabric_os.Network.Ip.{Address, Ipv4Header, ip_size, from_be, byte}
use fabric_os.Network.Ip.Encoding.{from_bytes-to_bytes}
use fabric_os.Network.Udp
use fabric_os.Network.Udp.{UdpHeader, udp_size, copy_at, fill_packet, build_udp_packet}

copy_at-start :
    (bytes buf : List ℕ)
    → length bytes ≤ length buf
    → copy_at buf 0 bytes ≡ bytes ++ drop (length bytes) buf
unfolding copy_at
copy_at-start [] [] h = refl
copy_at-start [] (x ∷ buf) h = refl
copy_at-start (b ∷ bytes) [] h = absurd (omega (arith, h))
copy_at-start (b ∷ bytes) (x ∷ buf) h = ap (λ l. b ∷ l) (copy_at-start bytes buf (omega (arith, h)))

length-drop : (n : ℕ) (xs : List ℕ) → length (drop n xs) ≡ length xs - n
length-drop zero xs = omega arith
length-drop (suc n) [] = omega arith
length-drop (suc n) (x ∷ xs) = omega (arith, length-drop n xs)

take-all : (xs ys : List ℕ) → take (length xs) (xs ++ ys) ≡ xs
take-all [] ys = refl
take-all (x ∷ xs) ys = ap (λ l. x ∷ l) (take-all xs ys)

-- The header that is written before the data.
abbrev written : Address × ℕ → Address × ℕ → List ℕ → UdpHeader
written src dst payload =
    let udp = Udp.new src.1 dst.1 (length payload) in
    record udp {
      checksum =
          pseudo_header_checksum src.0 dst.0 17 (udp_size + length payload)
            (Udp.to_bytes udp ++ payload);
    }

-- What stays of the buffer.
abbrev beyond : List ℕ → List ℕ → List ℕ
beyond payload buf = drop (length payload) (drop 8 (drop 20 buf))

segment-parts :
    (ip : Ipv4Header) (udp : UdpHeader) (payload buf : List ℕ)
    → 28 + length payload ≤ length buf
    → copy_at (copy_at (copy_at buf 0 (Ip.to_bytes ip)) 20 (Udp.to_bytes udp)) 28 payload
      ≡ Ip.to_bytes ip ++ (Udp.to_bytes udp ++ (payload ++ beyond payload buf))
unfolding copy_at Ip.to_bytes Udp.to_bytes
segment-parts ip udp payload buf room =
    let p = Ip.to_bytes ip in
    let q = Udp.to_bytes udp in
    let below_ip = length-drop 20 buf in
    let below_udp = length-drop 8 (drop 20 buf) in
    ap (λ b. copy_at (copy_at b 20 q) 28 payload) (copy_at-start p buf (omega (arith, room)))
    ∙ (ap (λ b. p ++ copy_at b 8 payload)
          (copy_at-start q (drop 20 buf) (omega (arith, room, below_ip)))
        ∙ ap (λ b. p ++ (q ++ b))
            (copy_at-start payload (drop 8 (drop 20 buf))
              (omega (arith, room, below_ip, below_udp))))

-- The segment that the checksum is taken of, in the whole buffer.
segment_of :
    (ip : Ipv4Header) (udp : UdpHeader) (payload rest : List ℕ)
    → take
        (8 + length payload)
        (drop 20 (Ip.to_bytes ip ++ (Udp.to_bytes udp ++ (payload ++ rest))))
      ≡ Udp.to_bytes udp ++ payload
unfolding Ip.to_bytes Udp.to_bytes
segment_of ip udp payload rest =
    let q = Udp.to_bytes udp in
    let long : 8 + length payload ≡ length (q ++ payload) = omega arith in
    ap (λ n. take n (q ++ (payload ++ rest))) long ∙ take-all (q ++ payload) rest

-- A second header over the first.
rewritten :
    (ip : Ipv4Header) (udp udp' : UdpHeader) (rest : List ℕ)
    → copy_at (Ip.to_bytes ip ++ (Udp.to_bytes udp ++ rest)) 20 (Udp.to_bytes udp')
      ≡ Ip.to_bytes ip ++ (Udp.to_bytes udp' ++ rest)
unfolding Ip.to_bytes Udp.to_bytes copy_at
rewritten ip udp udp' rest =
    ap (λ b. Ip.to_bytes ip ++ (Udp.to_bytes udp' ++ b)) (copy_at-start [] rest (omega arith))

fill_packet-parts :
    (src dst : Address × ℕ) (payload buf : List ℕ)
    → length payload ≤ 65507
    → 28 + length payload ≤ length buf
    → fill_packet src dst payload buf (8 + length payload)
      ≡ Ip.to_bytes (Ip.new src.0 dst.0 17 (8 + length payload))
        ++ (Udp.to_bytes (written src dst payload) ++ (payload ++ beyond payload buf))
unfolding fill_packet
fill_packet-parts src dst payload buf small room =
    let n = 8 + length payload in
    let ip = Ip.new src.0 dst.0 17 n in
    let udp = Udp.new src.1 dst.1 (length payload) in
    let exact : length payload % u16_mod ≡ length payload = omega (arith, small) in
    let sum : List ℕ → ℕ = λ bytes. pseudo_header_checksum src.0 dst.0 17 n bytes in
    let seal : UdpHeader → List ℕ → List ℕ =
      λ u seg. copy_at seg 20 (Udp.to_bytes (record u { checksum = sum (take n (drop 20 seg)) })) in
    let segment : UdpHeader → List ℕ =
      λ u. copy_at (copy_at (copy_at buf 0 (Ip.to_bytes ip)) 20 (Udp.to_bytes u)) 28 payload in
    let rest = payload ++ beyond payload buf in
    ap (λ d. seal (Udp.new src.1 dst.1 d) (segment (Udp.new src.1 dst.1 d))) exact
    ∙ (ap (seal udp) (segment-parts ip udp payload buf room)
        ∙ (ap
              (λ bytes.
                copy_at (Ip.to_bytes ip ++ (Udp.to_bytes udp ++ rest)) 20
                  (Udp.to_bytes (record udp { checksum = sum bytes })))
              (segment_of ip udp payload (beyond payload buf))
            ∙ rewritten ip udp (written src dst payload) rest))

Udp-from_bytes-to_bytes :
    (h : UdpHeader) (rest : List ℕ) → Udp.from_bytes (Udp.to_bytes h ++ rest) ≡ some h
unfolding Udp.from_bytes Udp.to_bytes from_be byte
Udp-from_bytes-to_bytes h rest = ground arith

udp_part :
    (ip : Ipv4Header) (udp : UdpHeader) (payload rest : List ℕ)
    → (drop 20 (Ip.to_bytes ip ++ (Udp.to_bytes udp ++ (payload ++ rest)))
        ≡ Udp.to_bytes udp ++ (payload ++ rest))
      × (drop 28 (Ip.to_bytes ip ++ (Udp.to_bytes udp ++ (payload ++ rest))) ≡ payload ++ rest)
unfolding Ip.to_bytes Udp.to_bytes
udp_part ip udp payload rest = (refl, refl)

-- The segment before its checksum is known: the ports, the length and a checksum of 0, and the data.
abbrev pub unsealed : ℕ → ℕ → List ℕ → List ℕ
unsealed src_port dst_port payload =
    let n = 8 + length payload in
    (src_port / 256)
    ∷ (src_port % 256)
    ∷ (dst_port / 256)
    ∷ (dst_port % 256)
    ∷ (n / 256)
    ∷ (n % 256)
    ∷ 0
    ∷ 0
    ∷ payload

-- The header of RFC 768.
abbrev pub sealed : Address × ℕ → Address × ℕ → List ℕ → UdpHeader
sealed src dst payload = record {
  src_port = src.1;
  dst_port = dst.1;
  datagram_length = 8 + length payload;
  checksum =
      internet_checksum
        (pseudo_header src.0 dst.0 17 (8 + length payload) ++ unsealed src.1 dst.1 payload);
}

written-sealed :
    (src dst : Address × ℕ) (payload : List ℕ)
    → length payload ≤ 65507
    → written src dst payload ≡ sealed src dst payload
unfolding Udp.new Udp.to_bytes
written-sealed src dst payload small =
    let n = 8 + length payload in
    let udp_len : add16 udp_size (length payload) ≡ n = omega (arith, small) in
    ap
      (λ m. record {
        src_port = src.1;
        dst_port = dst.1;
        datagram_length = m;
        checksum = pseudo_header_checksum src.0 dst.0 17 n (
            (src.1 / 256)
            ∷ (src.1 % 256)
            ∷ (dst.1 / 256)
            ∷ (dst.1 % 256)
            ∷ (m / 256)
            ∷ (m % 256)
            ∷ 0
            ∷ 0
            ∷ payload);
      })
      udp_len
    ∙ ap (λ c. record { src_port = src.1; dst_port = dst.1; datagram_length = n; checksum = c })
        (pseudo_header_checksum-internet_checksum src.0 dst.0 17 n (unsealed src.1 dst.1 payload))

ip_fields :
    (src dst : Address) (n : ℕ)
    → 20 + n < u16_mod
    → let ip = Ip.new src dst 17 n in
      (ip.total_length ≡ 20 + n) × (ip.protocol ≡ 17) × (ip.src_addr ≡ src) × (ip.dst_addr ≡ dst)
unfolding Ip.new
ip_fields src dst n small = (omega (arith, small), refl, refl, refl)

-- Data of at most 65507 bytes, with a buffer that has room, makes a packet of 28 bytes more, from
-- which the IP header with the two addresses, the length and protocol 17, the UDP header with the
-- ports, the length and the internet checksum over the bytes of the pseudo-header and the segment,
-- and the data are read back.
pub build_udp_packet-from_bytes :
    (src dst : Address × ℕ) (payload buf : List ℕ)
    → length payload ≤ 65507
    → 28 + length payload ≤ length buf
    → (out : List ℕ) × (build_udp_packet src dst payload buf ≡ some (out, 28 + length payload))
      × (Ip.from_bytes out ≡ some (Ip.new src.0 dst.0 17 (8 + length payload)))
      × (let ip = Ip.new src.0 dst.0 17 (8 + length payload) in
          (ip.total_length ≡ 28 + length payload)
          × (ip.protocol ≡ 17)
          × (ip.src_addr ≡ src.0)
          × (ip.dst_addr ≡ dst.0))
      × (Udp.from_bytes (drop 20 out) ≡ some (sealed src dst payload))
      × (take (length payload) (drop 28 out) ≡ payload)
unfolding build_udp_packet
build_udp_packet-from_bytes src dst payload buf small room =
    let n = 8 + length payload in
    let rest = payload ++ beyond payload buf in
    let ip = Ip.new src.0 dst.0 17 n in
    let udp = written src dst payload in
    let fields = ip_fields src.0 dst.0 n (omega (arith, small)) in
    let parts = udp_part ip udp payload (beyond payload buf) in
    let udp_len : add16 udp_size (length payload % u16_mod) ≡ n = omega (arith, small) in
    let filled = fill_packet-parts src dst payload buf small room in
    (
      Ip.to_bytes ip ++ (Udp.to_bytes udp ++ rest),
      ground (arith, room, udp_len, filled, ap (fill_packet src dst payload buf) udp_len),
      from_bytes-to_bytes ip (Udp.to_bytes udp ++ rest),
      (omega (arith, fields.0), fields.1, fields.2, fields.3),
      ap Udp.from_bytes parts.0
          ∙ (Udp-from_bytes-to_bytes udp rest ∙ ap some (written-sealed src dst payload small)),
      ap (take (length payload)) parts.1 ∙ take-all payload (beyond payload buf),
    )
