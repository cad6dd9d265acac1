-- ===== src/Network/Ethernet/Framing.antt =====
-- kernel/src/network/ethernet.rs: a frame that is built is read back.
use fabric_os.Base.{ℕ, ◌≡◌, refl, List, [], ◌∷◌, ◌++◌, some, arith}
use fabric_os.Network.Ip.{byte, from_be}
use fabric_os.Network.Ethernet.{EthernetFrame, build, parse, header_bytes}

abbrev pub six : ℕ → ℕ → ℕ → ℕ → ℕ → ℕ → List ℕ
six a b c d e f = a ∷ b ∷ c ∷ d ∷ e ∷ f ∷ []

-- With six bytes for each address, a frame is read as it was built, and its header is the part of
-- the frame before the payload.
pub parse-build :
    (a b c d e f g h i j k l ethertype : ℕ) (payload : List ℕ)
    → let dst = six a b c d e f in
      let src = six g h i j k l in
      let frame : EthernetFrame = record {
        dst_mac = dst;
        src_mac = src;
        ethertype = ethertype;
        payload = payload;
      } in
      (parse (build dst src ethertype payload) ≡ some frame)
      × (build dst src ethertype payload ≡ header_bytes frame ++ payload)
unfolding parse build header_bytes from_be byte
parse-build a b c d e f g h i j k l ethertype payload = (ground arith, refl)
