-- ===== src/Packet/Header.antt =====
-- CXCommon/include/CXCommonPacketStructure.h, struct _CX_PACKET_HEADER: 16 packed bytes, numbers with
-- their low byte first. CXConnectionObject.cpp fills it in SendAssembledPacket and reads it in RecvPacket.
use konsan_net.Prelude.{
  ℕ, zero, suc, ◌+◌, ◌*◌, ◌/◌, ◌%◌, ◌^◌, ◌<◌, ◌≤◌, ◌≡◌, refl, Bool, none, some, List, [], ◌∷◌, ◌++◌,
  get_elem?, arith, length, add32, take, ◌==◌,
}

pub record Header : Type 0 where
  pub flag : ℕ
  pub compress_flag : ℕ
  pub encrypt_flag : ℕ
  pub data_len : ℕ
  pub check_sum : ℕ
  pub orign_data_len : ℕ

-- sizeof(CXPacketHeader), CX_PACKET_HEADER_FLAG and CX_MAX_CHACHE_SIZE.
abbrev pub header_len : ℕ
header_len = 16

abbrev pub packet_header_flag : ℕ
packet_header_flag = 9719

abbrev pub max_chache_size : ℕ
max_chache_size = 1048576

unfoldable pub put_word : ℕ → List ℕ
put_word n = (n % 256) ∷ (n / 256 % 256) ∷ []

unfoldable pub put_dword : ℕ → List ℕ
put_dword n = (n % 256) ∷ (n / 256 % 256) ∷ (n / 65536 % 256) ∷ (n / 16777216 % 256) ∷ []

unfoldable pub encode_header : Header → List ℕ
encode_header h =
    put_word h.flag
    ++ ((h.compress_flag % 256) ∷ (h.encrypt_flag % 256) ∷ [])
    ++ put_dword h.data_len
    ++ put_dword h.check_sum
    ++ put_dword h.orign_data_len

-- A byte of a zeroed struct into which `bytes` were copied.
unfoldable pub get_byte : List ℕ → ℕ → ℕ
get_byte bytes i = elim (get_elem? bytes i) [ none ↦ 0 | some b ↦ b ]

unfoldable pub get_word : List ℕ → ℕ → ℕ
get_word bytes i = get_byte bytes i + 256 * get_byte bytes (i + 1)

unfoldable pub get_dword : List ℕ → ℕ → ℕ
get_dword bytes i =
    get_byte bytes i
    + 256 * get_byte bytes (i + 1)
    + 65536 * get_byte bytes (i + 2)
    + 16777216 * get_byte bytes (i + 3)

unfoldable pub decode_header : List ℕ → Header
decode_header bytes = record {
  flag = get_word bytes 0;
  compress_flag = get_byte bytes 2;
  encrypt_flag = get_byte bytes 3;
  data_len = get_dword bytes 4;
  check_sum = get_dword bytes 8;
  orign_data_len = get_dword bytes 12;
}

-- The fields fit their widths.
pub record Fits (h : Header) : Type 0 where
  pub flag : h.flag < 2 ^ 16
  pub compress_flag : h.compress_flag < 256
  pub encrypt_flag : h.encrypt_flag < 256
  pub data_len : h.data_len < 2 ^ 32
  pub check_sum : h.check_sum < 2 ^ 32
  pub orign_data_len : h.orign_data_len < 2 ^ 32

pub length-encode_header : (h : Header) → length (encode_header h) ≡ header_len
unfolding encode_header put_word put_dword
length-encode_header h = refl

dword_parts :
    (n : ℕ)
    → n < 2 ^ 32
    → n % 256 + 256 * (n / 256 % 256) + 65536 * (n / 65536 % 256) + 16777216 * (n / 16777216 % 256)
      ≡ n
dword_parts n h = omega arith

-- A header that is sent is the one that is read, whatever follows it.
pub decode_header-encode_header :
    (h : Header) (rest : List ℕ) → Fits h → decode_header (encode_header h ++ rest) ≡ h
unfolding encode_header decode_header put_word put_dword get_byte get_word get_dword
decode_header-encode_header h rest f = ground arith

-- The loops of VerifyPacketBodyData and SendAssembledPacket over the bytes of a body.
unfoldable pub sum_bytes : ℕ → List ℕ → ℕ
sum_bytes sum [] = sum
sum_bytes sum (b ∷ bs) = sum_bytes (add32 sum b) bs

pub sum_bytes_bound : (sum : ℕ) (bs : List ℕ) → sum < 2 ^ 32 → sum_bytes sum bs < 2 ^ 32
unfolding sum_bytes
sum_bytes_bound sum [] h = h
sum_bytes_bound sum (b ∷ bs) h = sum_bytes_bound (add32 sum b) bs (omega arith)

-- VerifyPacketBodyData
unfoldable pub verify_packet_body_data : Header → List ℕ → Bool
verify_packet_body_data h body = sum_bytes 0 (take h.data_len body) == h.check_sum

-- What follows the first 16 bytes does not matter to the header.
get_byte-append : (xs ys : List ℕ) (i : ℕ) → i < length xs → get_byte (xs ++ ys) i ≡ get_byte xs i
unfolding get_byte
get_byte-append [] ys i h = absurd (omega arith)
get_byte-append (x ∷ xs) ys zero h = refl
get_byte-append (x ∷ xs) ys (suc i) h = get_byte-append xs ys i (omega arith)

pub decode_header-append :
    (xs ys : List ℕ) → header_len ≤ length xs → decode_header (xs ++ ys) ≡ decode_header xs
unfolding decode_header get_word get_dword
decode_header-append xs ys h =
    let same : (i : ℕ) → i < 16 → get_byte (xs ++ ys) i ≡ get_byte xs i =
      λ i small. get_byte-append xs ys i (omega arith) in
    rw
      (
        same 0 (omega arith),
        same 1 (omega arith),
        same 2 (omega arith),
        same 3 (omega arith),
        same 4 (omega arith),
        same 5 (omega arith),
        same 6 (omega arith),
        same 7 (omega arith),
        same 8 (omega arith),
        same 9 (omega arith),
        same 10 (omega arith),
        same 11 (omega arith),
        same 12 (omega arith),
        same 13 (omega arith),
        same 14 (omega arith),
        same 15 (omega arith),
      )
      refl
