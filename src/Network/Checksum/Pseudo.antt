-- ===== src/Network/Checksum/Pseudo.antt =====
-- kernel/src/network/checksum.rs: the checksum over a segment and its pseudo-header.
use fabric_os.Base.{ℕ, ◌+◌, ◌*◌, ◌/◌, ◌%◌, ◌≡◌, ap, ◌∙◌, List, [], ◌∷◌, ◌++◌, arith}
use fabric_os.Base.Words.{add32}
use fabric_os.Network.Checksum.{
  internet_checksum, pseudo_header_checksum, sum_words, fold_sum, fold_rounds, complement,
  add_address,
}

-- The pseudo-header of RFC 768 and RFC 793, in bytes.
abbrev pub pseudo_header : ℕ × ℕ × ℕ × ℕ → ℕ × ℕ × ℕ × ℕ → ℕ → ℕ → List ℕ
pseudo_header src dst protocol size =
    src.0
    ∷ src.1
    ∷ src.2
    ∷ src.3
    ∷ dst.0
    ∷ dst.1
    ∷ dst.2
    ∷ dst.3
    ∷ 0
    ∷ protocol
    ∷ (size / 256)
    ∷ (size % 256)
    ∷ []

-- The checksum is that of the pseudo-header's bytes and the segment after them.
pub pseudo_header_checksum-internet_checksum :
    (src dst : ℕ × ℕ × ℕ × ℕ) (protocol size : ℕ) (segment : List ℕ)
    → pseudo_header_checksum src dst protocol size segment
      ≡ internet_checksum (pseudo_header src dst protocol size ++ segment)
unfolding pseudo_header_checksum internet_checksum sum_words
pseudo_header_checksum-internet_checksum src dst protocol size segment =
    let whole : size ≡ size / 256 * 256 + size % 256 = omega arith in
    let word : protocol ≡ 0 * 256 + protocol = omega arith in
    let addresses = add_address (add_address 0 src) dst in
    ap (λ p. complement (fold_sum fold_rounds (sum_words (add32 (add32 addresses p) size) segment)))
      word
    ∙ ap
        (λ n. complement (
          fold_sum fold_rounds
            (sum_words (add32 (add32 addresses (0 * 256 + protocol)) n) segment)))
        whole
