-- ===== src/Networking/Crc.antt =====
-- The checksum of networking/src/binary_protocol.cpp. `>> n` is a division and `& 0xFF` a remainder.
use Prim.Native.Nat.{bit_xor, bit_xor-bitwise, digits, differ}
use velox_quant.Base.{
  ◌≡◌, refl, ℕ, zero, suc, ◌/◌, ◌%◌, ◌^◌, ◌<◌, ◌==◌, if◌then◌else◌, List, [], ◌∷◌, arith,
  Bool-cases, inl, inr,
}

-- One of the eight rounds for an entry of the table.
unfoldable pub crc_round : ℕ → ℕ
crc_round c = if c % 2 == 1 then bit_xor 0xEDB88320 (c / 2) else c / 2

-- `make_crc_table()[i]`
unfoldable pub crc_entry : ℕ → ℕ
crc_entry i =
    crc_round (crc_round (crc_round (crc_round (crc_round (crc_round (crc_round (crc_round i)))))))

unfoldable pub crc_update : ℕ → ℕ → ℕ
crc_update crc b = bit_xor (crc / 256) (crc_entry (bit_xor crc b % 256))

unfoldable pub crc_over : ℕ → List ℕ → ℕ
crc_over crc [] = crc
crc_over crc (b ∷ bs) = crc_over (crc_update crc b) bs

unfoldable pub crc32 : List ℕ → ℕ
crc32 bytes = bit_xor (crc_over 0xFFFFFFFF bytes) 0xFFFFFFFF

-- The check value that the CRC-32 standard gives for the nine digits `123456789`.
crc32_check : crc32 (0x31 ∷ 0x32 ∷ 0x33 ∷ 0x34 ∷ 0x35 ∷ 0x36 ∷ 0x37 ∷ 0x38 ∷ 0x39 ∷ []) ≡ 0xCBF43926
unfolding crc32 crc_over crc_update crc_entry crc_round
crc32_check = refl

differ_bit : (x y : ℕ) → x < 2 → y < 2 → differ x y < 2
differ_bit zero y h k = k
differ_bit (suc zero) zero h k = omega arith
differ_bit (suc zero) (suc zero) h k = omega arith
differ_bit (suc zero) (suc (suc y)) h k = absurd (omega arith)
differ_bit (suc (suc x)) y h k = absurd (omega arith)

digits_small : (n k a b : ℕ) → a < 2 ^ k → b < 2 ^ k → digits (λ b. b) differ n a b < 2 ^ k
digits_small zero k a b h j = j
digits_small (suc n) k zero b h j = j
digits_small (suc n) zero (suc a) b h j = absurd (omega arith)
digits_small (suc n) (suc k) (suc a) b h j = omega (
  arith,
  digits_small n k (suc a / 2) (b / 2) (omega arith) (omega arith),
  differ_bit (suc a % 2) (b % 2) (omega arith) (omega arith),
)

-- An exclusive or has no more digits than its arguments.
pub bit_xor_small : (k a b : ℕ) → a < 2 ^ k → b < 2 ^ k → bit_xor a b < 2 ^ k
bit_xor_small k a b h j = omega (arith, bit_xor-bitwise a b, digits_small a k a b h j)

crc_round_small : (c : ℕ) → c < 2 ^ 32 → crc_round c < 2 ^ 32
unfolding crc_round
crc_round_small c h = elim (Bool-cases (c % 2 == 1)) [
  | inl odd ↦ rw odd (bit_xor_small 32 0xEDB88320 (c / 2) (omega arith) (omega arith))
  | inr even ↦ rw even (omega arith)
]

crc_entry_small : (i : ℕ) → i < 2 ^ 32 → crc_entry i < 2 ^ 32
unfolding crc_entry
crc_entry_small i h = crc_round_small _ (
    crc_round_small _ (
      crc_round_small _ (
        crc_round_small _
          (crc_round_small _ (crc_round_small _ (crc_round_small _ (crc_round_small i h)))))))

crc_over_small : (crc : ℕ) (bytes : List ℕ) → crc < 2 ^ 32 → crc_over crc bytes < 2 ^ 32
unfolding crc_over crc_update
crc_over_small crc [] h = h
crc_over_small crc (b ∷ bs) h =
    crc_over_small (crc_update crc b) bs
      (bit_xor_small 32 _ _ (omega arith) (crc_entry_small (bit_xor crc b % 256) (omega arith)))

-- The checksum is a 32-bit number.
pub crc32_small : (bytes : List ℕ) → crc32 bytes < 2 ^ 32
unfolding crc32
crc32_small bytes =
    bit_xor_small 32 _ _ (crc_over_small 0xFFFFFFFF bytes (omega arith)) (omega arith)
