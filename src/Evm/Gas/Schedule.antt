-- ===== src/Evm/Gas/Schedule.antt =====
-- The gas schedule of gas.rs and the costs that it gives.
use nexus_chain.Base.{
  ℕ, ◌+◌, ◌*◌, ◌/◌, ◌≤◌, ◌<◌, ◌≡◌, Bool, List, [], ◌∷◌, ◌^◌, arith, if◌then◌else◌, ◌==◌, leb, add64,
  mul64, sub64, u64_mod,
}

pub record GasSchedule : Type 0 where
  pub tx_base : ℕ
  pub tx_data_zero : ℕ
  pub tx_data_nonzero : ℕ
  pub tx_create : ℕ
  pub access_list_address : ℕ
  pub access_list_storage_key : ℕ
  pub base : ℕ
  pub verylow : ℕ
  pub low : ℕ
  pub mid : ℕ
  pub high : ℕ
  pub jumpdest : ℕ
  pub memory : ℕ
  pub copy : ℕ
  pub sload_cold : ℕ
  pub sload_warm : ℕ
  pub sstore_set : ℕ
  pub sstore_reset : ℕ
  pub sstore_clear_refund : ℕ
  pub cold_account_access : ℕ
  pub warm_account_access : ℕ
  pub cold_sload : ℕ
  pub call : ℕ
  pub call_value_transfer : ℕ
  pub call_new_account : ℕ
  pub selfdestruct : ℕ
  pub ecrecover : ℕ
  pub sha256_base : ℕ
  pub sha256_word : ℕ
  pub ripemd160_base : ℕ
  pub ripemd160_word : ℕ
  pub identity_base : ℕ
  pub identity_word : ℕ
  pub modexp_gquad_divisor : ℕ
  pub bn_add : ℕ
  pub bn_mul : ℕ
  pub bn_pairing_base : ℕ
  pub bn_pairing_point : ℕ
  pub blake2f_round : ℕ
  pub zkp_verify_base : ℕ
  pub zkp_verify_per_input : ℕ
  pub iso20022_parse_base : ℕ
  pub iso20022_parse_per_byte : ℕ

abbrev pub berlin : GasSchedule
berlin = record {
  tx_base = 21000;
  tx_data_zero = 4;
  tx_data_nonzero = 16;
  tx_create = 32000;
  access_list_address = 2400;
  access_list_storage_key = 1900;
  base = 2;
  verylow = 3;
  low = 5;
  mid = 8;
  high = 10;
  jumpdest = 1;
  memory = 3;
  copy = 3;
  sload_cold = 2100;
  sload_warm = 100;
  sstore_set = 20000;
  sstore_reset = 2900;
  sstore_clear_refund = 15000;
  cold_account_access = 2600;
  warm_account_access = 100;
  cold_sload = 2100;
  call = 100;
  call_value_transfer = 9000;
  call_new_account = 25000;
  selfdestruct = 5000;
  ecrecover = 3000;
  sha256_base = 60;
  sha256_word = 12;
  ripemd160_base = 600;
  ripemd160_word = 120;
  identity_base = 15;
  identity_word = 3;
  modexp_gquad_divisor = 3;
  bn_add = 150;
  bn_mul = 6000;
  bn_pairing_base = 45000;
  bn_pairing_point = 34000;
  blake2f_round = 1;
  zkp_verify_base = 100000;
  zkp_verify_per_input = 5000;
  iso20022_parse_base = 5000;
  iso20022_parse_per_byte = 10;
}

-- The loop over the bytes of the data.
abbrev pub data_gas : GasSchedule → ℕ → List ℕ → ℕ
data_gas s gas [] = gas
data_gas s gas (byte ∷ bytes) =
    data_gas s (if byte == 0 then add64 gas s.tx_data_zero else add64 gas s.tx_data_nonzero) bytes

unfoldable pub intrinsic_gas : GasSchedule → List ℕ → Bool → ℕ → ℕ
intrinsic_gas s bytes is_create access_list_len =
    add64 (data_gas s (if is_create then add64 s.tx_base s.tx_create else s.tx_base) bytes)
      (mul64 access_list_len s.access_list_address)

unfoldable pub memory_cost : GasSchedule → ℕ → ℕ
memory_cost s size =
    let words = add64 size 31 / 32 in add64 (mul64 words s.memory) (mul64 words words / 512)

unfoldable pub memory_expansion_cost : GasSchedule → ℕ → ℕ → ℕ
memory_expansion_cost s current_size new_size =
    if leb new_size current_size
    then 0
    else sub64 (memory_cost s new_size) (memory_cost s current_size)

-- The price of a byte.
abbrev byte_gas : GasSchedule → ℕ → ℕ
byte_gas s byte = if byte == 0 then s.tx_data_zero else s.tx_data_nonzero

abbrev pub bytes_gas : GasSchedule → List ℕ → ℕ
bytes_gas s [] = 0
bytes_gas s (b ∷ bs) = byte_gas s b + bytes_gas s bs

data_gas-eq-bytes_gas :
    (s : GasSchedule) (gas : ℕ) (bytes : List ℕ)
    → gas + bytes_gas s bytes < u64_mod
    → data_gas s gas bytes ≡ gas + bytes_gas s bytes
data_gas-eq-bytes_gas s gas [] h = omega arith
data_gas-eq-bytes_gas s gas (b ∷ bs) h = ground (
  arith,
  data_gas-eq-bytes_gas s (add64 gas s.tx_data_zero) bs,
  data_gas-eq-bytes_gas s (add64 gas s.tx_data_nonzero) bs,
)

abbrev pub create_gas : GasSchedule → Bool → ℕ
create_gas s is_create = if is_create then s.tx_create else 0

-- While it fits in a word, the intrinsic gas is the base, the price of a creation, the price of
-- every byte and that of every access list entry.
intrinsic_gas_lem :
    (s : GasSchedule) (bytes : List ℕ) (is_create : Bool) (n : ℕ)
    → s.tx_base + create_gas s is_create + bytes_gas s bytes + n * s.access_list_address < u64_mod
    → intrinsic_gas s bytes is_create n
      ≡ s.tx_base + create_gas s is_create + bytes_gas s bytes + n * s.access_list_address
unfolding intrinsic_gas
intrinsic_gas_lem s bytes is_create n h = ground (
  arith,
  data_gas-eq-bytes_gas s s.tx_base bytes,
  data_gas-eq-bytes_gas s (add64 s.tx_base s.tx_create) bytes,
)

-- The cost of memory in whole words, with no wrap-around.
abbrev words_cost : GasSchedule → ℕ → ℕ
words_cost s w = w * s.memory + w * w / 512

product_le : (a b c d : ℕ) → a ≤ c → b ≤ d → a * b ≤ c * d
product_le a b c d h k = grind arith

memory_cost-words :
    (s : GasSchedule) (size : ℕ)
    → size < 2 ^ 32
    → s.memory < 2 ^ 16
    → memory_cost s size ≡ words_cost s ((size + 31) / 32)
unfolding memory_cost
memory_cost-words s size small cheap =
    let w = (size + 31) / 32 in
    let few : w ≤ 2 ^ 27 = omega arith in
    let linear : w * s.memory ≤ 2 ^ 27 * 2 ^ 16 =
      product_le w s.memory (2 ^ 27) (2 ^ 16) few (omega arith) in
    let square : w * w ≤ 2 ^ 27 * 2 ^ 27 = product_le w w (2 ^ 27) (2 ^ 27) few few in
    let exact : add64 size 31 ≡ size + 31 = omega arith in rw exact (omega arith)

words_cost_mono : (s : GasSchedule) (v w : ℕ) → v ≤ w → words_cost s v ≤ words_cost s w
words_cost_mono s v w h =
    let linear : v * s.memory ≤ w * s.memory = product_le v s.memory w s.memory h (omega arith) in
    let square : v * v ≤ w * w = product_le v v w w h h in omega arith

memory_cost_mono :
    (s : GasSchedule) (a b : ℕ)
    → a ≤ b
    → b < 2 ^ 32
    → s.memory < 2 ^ 16
    → (memory_cost s a ≤ memory_cost s b) × (memory_cost s b < u64_mod)
unfolding memory_cost
memory_cost_mono s a b h small cheap = (
  rw (memory_cost-words s a (omega arith) cheap, memory_cost-words s b small cheap)
      (words_cost_mono s ((a + 31) / 32) ((b + 31) / 32) (omega arith)),
  omega arith,
)

-- Memory costs grow with the size, and a growth in two steps costs what it costs in one: sizes below
-- 4 GiB, at less than 2 ^ 16 gas for a word.
memory_expansion_additive :
    (s : GasSchedule) (a b c : ℕ)
    → a ≤ b
    → b ≤ c
    → c < 2 ^ 32
    → s.memory < 2 ^ 16
    → (memory_cost s a ≤ memory_cost s b)
      × (memory_expansion_cost s a b + memory_expansion_cost s b c ≡ memory_expansion_cost s a c)
unfolding memory_expansion_cost
memory_expansion_additive s a b c ab bc small cheap =
    let lower = memory_cost_mono s a b ab (omega arith) cheap in
    let upper = memory_cost_mono s b c bc small cheap in (lower.0, ground arith)
