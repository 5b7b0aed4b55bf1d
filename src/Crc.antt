-- ===== src/Crc.antt =====
-- common/crc32.cc, with its table computed entry by entry.
use flotilladb.Base.{ℕ, zero, suc, ◌/◌, ◌^◌, ◌<◌, ◌≡◌, refl}
use flotilladb.Base.{inl, inr, List, [], ◌∷◌}
use flotilladb.Base.{arith, ◌==◌, if◌then◌else◌, Bool-cases}
use Prim.Native.Nat.{bit_and, bit_xor}
use flotilladb.Base.Bits.{bit_and-lt, bit_xor-lt}

-- `c = (c & 1) ? 0xEDB88320u ^ (c >> 1) : c >> 1`
table_round : ℕ → ℕ
table_round c = if bit_and c 1 == 0 then c / 2 else bit_xor 0xedb88320 (c / 2)

table_rounds : ℕ → ℕ → ℕ
table_rounds zero c = c
table_rounds (suc k) c = table_rounds k (table_round c)

-- `MakeTable()[i]`
unfoldable pub table_entry : ℕ → ℕ
unfolding table_rounds table_round
table_entry i = table_rounds 8 i

crc_loop : ℕ → List ℕ → ℕ
crc_loop crc [] = crc
crc_loop crc (c ∷ cs) =
    crc_loop (bit_xor (table_entry (bit_and (bit_xor crc c) 0xff)) (crc / 2 ^ 8)) cs

unfoldable pub crc32 : List ℕ → ℕ
unfolding crc_loop table_entry
crc32 xs = bit_xor (crc_loop 0xffffffff xs) 0xffffffff

-- The check value of this CRC: the bytes of the text 123456789 give CBF43926.
crc32_check_value :
    crc32 (0x31 ∷ 0x32 ∷ 0x33 ∷ 0x34 ∷ 0x35 ∷ 0x36 ∷ 0x37 ∷ 0x38 ∷ 0x39 ∷ []) ≡ 0xcbf43926
unfolding crc32
crc32_check_value = refl

table_round-lt : (c : ℕ) → c < 2 ^ 32 → table_round c < 2 ^ 32
unfolding table_round
table_round-lt c h = elim (Bool-cases (bit_and c 1 == 0)) [
  | inl e ↦ rw e (omega arith)
  | inr e ↦ rw e (bit_xor-lt 32 0xedb88320 (c / 2) (omega arith) (omega arith))
]

table_rounds-lt : (k c : ℕ) → c < 2 ^ 32 → table_rounds k c < 2 ^ 32
unfolding table_rounds
table_rounds-lt zero c h = h
table_rounds-lt (suc k) c h = table_rounds-lt k (table_round c) (table_round-lt c h)

table_entry-lt : (crc c : ℕ) → table_entry (bit_and (bit_xor crc c) 0xff) < 2 ^ 32
unfolding table_entry
table_entry-lt crc c =
    let small = bit_and-lt 8 (bit_xor crc c) 0xff (omega arith) in
    table_rounds-lt 8 (bit_and (bit_xor crc c) 0xff) (omega arith)

crc_loop-lt : (crc : ℕ) (xs : List ℕ) → crc < 2 ^ 32 → crc_loop crc xs < 2 ^ 32
unfolding crc_loop
crc_loop-lt crc [] h = h
crc_loop-lt crc (c ∷ cs) h =
    crc_loop-lt (bit_xor (table_entry (bit_and (bit_xor crc c) 0xff)) (crc / 2 ^ 8)) cs (
      bit_xor-lt 32 (table_entry (bit_and (bit_xor crc c) 0xff)) (crc / 2 ^ 8)
        (table_entry-lt crc c) (omega arith))

-- The checksum is a 32-bit value.
pub crc32-lt : (xs : List ℕ) → crc32 xs < 2 ^ 32
unfolding crc32
crc32-lt xs = bit_xor-lt 32 _ 0xffffffff (crc_loop-lt 0xffffffff xs (omega arith)) (omega arith)
