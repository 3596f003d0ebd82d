-- ===== src/Iosc/Otp.antt =====
-- The one-time-programmable memory: kernel/source/crypto/otp.c. The word at an address, `word`, is a
-- parameter. The processor is big-endian.
use star_struck.Base.{
  ℕ, zero, suc, ◌+◌, ◌-◌, ◌/◌, ◌%◌, ◌^◌, ltb, ◌==◌, not, Bool, true, bit_or, take, List, [], ◌∷◌,
  ◌++◌, if◌then◌else◌, ◌≡◌, arith,
}

abbrev pub otp_commonkey_size : ℕ
otp_commonkey_size = 16

abbrev pub otp_ngprivkey_size : ℕ
otp_ngprivkey_size = 30

abbrev pub otp_nandkey_size : ℕ
otp_nandkey_size = 16

abbrev pub otp_nandhmac_size : ℕ
otp_nandhmac_size = 20

abbrev pub otp_rngseed_size : ℕ
otp_rngseed_size = 16

abbrev otp_dummy_ng_id : ℕ
otp_dummy_ng_id = 0x4A39

abbrev otp_dummy_common_key : List ℕ
otp_dummy_common_key =
    0xeb ∷ 0xe4 ∷ 0x2a ∷ 0x22 ∷ 0x5e ∷ 0x85 ∷ 0x93 ∷ 0xe4 ∷ 0x48 ∷ 0xd9 ∷ 0xc5 ∷ 0x45 ∷ 0x73 ∷ 0x81
    ∷ 0xaa ∷ 0xf7 ∷ []

abbrev otp_dummy_ng_priv_key : List ℕ
otp_dummy_ng_priv_key =
    0x00 ∷ 0x4d ∷ 0x4c ∷ 0x1e ∷ 0xa0 ∷ 0xb1 ∷ 0x76 ∷ 0xe3 ∷ 0xdd ∷ 0xfb ∷ 0xf8 ∷ 0x2e ∷ 0xa3 ∷ 0x86
    ∷ 0x14 ∷ 0x66 ∷ 0xf1 ∷ 0xd4 ∷ 0xc1 ∷ 0xe6 ∷ 0x4e ∷ 0x39 ∷ 0x83 ∷ 0xc8 ∷ 0x57 ∷ 0x07 ∷ 0x2b
    ∷ 0xda ∷ 0x4e ∷ 0x8f ∷ []

abbrev otp_dummy_nand_key : List ℕ
otp_dummy_nand_key =
    0xc1 ∷ 0x81 ∷ 0x6a ∷ 0xf7 ∷ 0xa2 ∷ 0x70 ∷ 0xd6 ∷ 0x1d ∷ 0xd3 ∷ 0xbd ∷ 0xa1 ∷ 0xe8 ∷ 0x41 ∷ 0xc9
    ∷ 0x6c ∷ 0x3f ∷ []

abbrev otp_dummy_nand_hmac : List ℕ
otp_dummy_nand_hmac =
    0x68 ∷ 0x6a ∷ 0x69 ∷ 0x88 ∷ 0x9e ∷ 0xbf ∷ 0x1e ∷ 0x74 ∷ 0xe9 ∷ 0x17 ∷ 0x8e ∷ 0xd7 ∷ 0x32 ∷ 0x27
    ∷ 0x0e ∷ 0x2c ∷ 0xcb ∷ 0x0a ∷ 0x9f ∷ 0x55 ∷ []

abbrev otp_dummy_rng_seed : List ℕ
otp_dummy_rng_seed =
    0xc4 ∷ 0x98 ∷ 0x73 ∷ 0x85 ∷ 0xe8 ∷ 0x65 ∷ 0xac ∷ 0xa4 ∷ 0x90 ∷ 0xa4 ∷ 0xfa ∷ 0x2c ∷ 0x89 ∷ 0xa5
    ∷ 0x53 ∷ 0x66 ∷ []

abbrev bytes_of : ℕ → List ℕ
bytes_of w = w / 2 ^ 24 % 2 ^ 8 ∷ w / 2 ^ 16 % 2 ^ 8 ∷ w / 2 ^ 8 % 2 ^ 8 ∷ w % 2 ^ 8 ∷ []

-- The loop of `OTP_FetchData`; a round takes a byte at least, so that as many rounds as bytes are enough.
unfoldable fetch_rounds : ℕ → (ℕ → ℕ) → ℕ → ℕ → List ℕ
fetch_rounds zero word addr size = []
fetch_rounds (suc fuel) word addr size =
    let content = bytes_of (word (addr % 0x20)) in
    let rest = fetch_rounds fuel word (addr + 1) (size - 4) in
    if size == 0 then [] else if ltb size 4 then take size content else content ++ rest

-- `OTP_FetchData`: the bytes that are written to `out`.
unfoldable pub fetch_data : (ℕ → ℕ) → ℕ → ℕ → List ℕ
unfolding fetch_rounds
fetch_data word addr size = fetch_rounds size word addr size

-- The static variables of `OTP_IsSet`.
pub record Checked : Type 0 where
  pub checked_common_key_is_set : Bool
  pub common_key_is_set : Bool

unfoldable pub otp_is_set : (ℕ → ℕ) → Checked → Bool × Checked
otp_is_set word s =
    let key = bit_or (bit_or (bit_or (word 5) (word 6)) (word 7)) (word 8) in
    let found = if not (key == 0) then true else s.common_key_is_set in
    if not s.checked_common_key_is_set
    then (found, record { checked_common_key_is_set = true; common_key_is_set = found })
    else (s.common_key_is_set, s)

-- The calls that read the memory, where `set` is the result of `OTP_IsSet`.
unfoldable pub get_ng_id : Bool → (ℕ → ℕ) → ℕ
get_ng_id set word = if set then word 9 else otp_dummy_ng_id

unfoldable pub get_rng_seed : Bool → (ℕ → ℕ) → List ℕ
unfolding fetch_data
get_rng_seed set word = if set then fetch_data word 26 otp_rngseed_size else otp_dummy_rng_seed

pub record Keys : Type 0 where
  pub common_key : List ℕ
  pub ng_priv_key : List ℕ
  pub nand_hmac : List ℕ
  pub nand_key : List ℕ

unfoldable pub get_keys : Bool → (ℕ → ℕ) → Keys
unfolding fetch_data
get_keys set word =
    if set
    then record {
      common_key = fetch_data word 5 otp_commonkey_size;
      ng_priv_key = fetch_data word 10 otp_ngprivkey_size;
      nand_hmac = fetch_data word 17 otp_nandhmac_size;
      nand_key = fetch_data word 22 otp_nandkey_size;
    }
    else record {
      common_key = otp_dummy_common_key;
      ng_priv_key = otp_dummy_ng_priv_key;
      nand_hmac = otp_dummy_nand_hmac;
      nand_key = otp_dummy_nand_key;
    }

-- A second call of `OTP_IsSet` returns what the first one has returned.
pub otp_is_set_again :
    (word : ℕ → ℕ) (s : Checked) → (otp_is_set word (otp_is_set word s).1).0 ≡ (otp_is_set word s).0
unfolding otp_is_set
otp_is_set_again word s = ground arith
