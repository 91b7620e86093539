-- ===== src/Coding/Keys.antt =====
-- CXDataParser/src/CXFastDataParserHandle.cpp: where the keys come from. SetBlowfishInfo takes them from
-- the caller; LoadBlowfishKeyFiles, ReadKeyFile and LoadRSAKeyFiles read them from files. A file is its
-- size, as the file system tells it, and the bytes that fread gives.
pub mod Stored
use konsan_net.Prelude.{
  ℕ, zero, suc, ◌-◌, Bool, true, false, ◌||◌, Option, none, some, List, [], ◌∷◌, ◌++◌, length, take,
  drop, is_empty, ltb, leb, ◌==◌, if◌then◌else◌,
}
use konsan_net.Coding.Parser.{Keys}

-- An array of 128 bytes and its used length.
pub record KeyBuffer : Type 0 where
  pub bytes : List ℕ
  pub len : ℕ

pub record KeyStore : Type 0 where
  pub pub_key : List ℕ
  pub priv_key : List ℕ
  pub by_key : KeyBuffer
  pub by_iv : KeyBuffer

pub record KeyFile : Type 0 where
  pub size : ℕ
  pub contents : List ℕ

unfoldable pub used_part : KeyBuffer → List ℕ
used_part b = take b.len b.bytes

-- What PrepareData and ParseData use.
unfoldable pub stored_keys : KeyStore → Keys
stored_keys s = record {
  pub_key = s.pub_key;
  priv_key = s.priv_key;
  key = used_part s.by_key;
  iv = used_part s.by_iv;
}

-- SetPubKey and SetPrivKey.
unfoldable pub set_pub_key : List ℕ → KeyStore → KeyStore
set_pub_key key s = record s { pub_key = key }

unfoldable pub set_priv_key : List ℕ → KeyStore → KeyStore
set_priv_key key s = record s { priv_key = key }

-- memcpy or fread to the front of an array.
unfoldable pub overwrite : List ℕ → List ℕ → List ℕ
overwrite new old = new ++ drop (length new) old

unfoldable pub set_buffer : List ℕ → KeyBuffer → KeyBuffer
set_buffer new b = record { bytes = overwrite new b.bytes; len = length new }

-- SetBlowfishInfo of arrays that are not NULL.
unfoldable pub set_blowfish_info : List ℕ → List ℕ → KeyStore → Bool × KeyStore
set_blowfish_info key iv s =
    let keyed = record s { by_key = set_buffer key s.by_key } in
    if is_empty key || is_empty iv
    then (false, s)
    else if ltb 128 (length key)
    then (false, s)
    else if ltb 128 (length iv)
    then (false, keyed)
    else (true, record keyed { by_iv = set_buffer iv s.by_iv })

-- One half of LoadBlowfishKeyFiles: a file that is shorter than its size has overwritten the array.
unfoldable pub load_buffer : Option KeyFile → KeyBuffer → Bool × KeyBuffer
load_buffer none b = (false, b)
load_buffer (some f) b =
    let read = take f.size f.contents in
    if ltb 128 f.size
    then (false, b)
    else if length read == f.size
    then (true, set_buffer read b)
    else (false, record b { bytes = overwrite read b.bytes })

-- The part of LoadBlowfishKeyFiles for a name that may be empty.
unfoldable pub load_named : (List ℕ → Option KeyFile) → List ℕ → KeyBuffer → Bool × KeyBuffer
load_named files name b = if is_empty name then (true, b) else load_buffer (files name) b

unfoldable pub load_blowfish_key_files :
    (List ℕ → Option KeyFile) → List ℕ → List ℕ → KeyStore → Bool × KeyStore
load_blowfish_key_files files key iv s =
    let (done, k) = load_named files key s.by_key in
    let (ended, i) = load_named files iv s.by_iv in
    if done then (ended, record s { by_key = k; by_iv = i }) else (false, record s { by_key = k })

-- The C string that begins an array, or none where the array has no zero byte after it.
unfoldable pub c_string : List ℕ → Option (List ℕ)
c_string [] = none
c_string (b ∷ bs) =
    let rest = c_string bs in
    if b == 0 then some [] else elim rest [ none ↦ none | some s ↦ some (b ∷ s) ]

unfoldable pub zeros : ℕ → List ℕ
zeros zero = []
zeros (suc n) = 0 ∷ zeros n

-- The text that was read, `false`, or a read past the array.
pub data ReadResult : Type 0 where
  read : List ℕ → ReadResult
  missing : ReadResult
  overrun : ReadResult

-- The loop of ReadKeyFile on an array of CX_BUF_SIZE zero bytes. iTotalReadLen stays 0, so the end of the
-- file ends it, and the size only bounds one fread. The fuel is one more than the file has bytes.
unfoldable pub read_pieces : ℕ → ℕ → List ℕ → List ℕ → ReadResult
read_pieces zero size left text = ReadResult.read text
read_pieces (suc fuel) size [] text = ReadResult.read text
read_pieces (suc fuel) size (b ∷ bs) text =
    let once = if ltb size 4096 then size else 4096 in
    let piece = take once (b ∷ bs) in
    let rest = λ (s : List ℕ). read_pieces fuel size (drop once (b ∷ bs)) (text ++ s) in
    if size == 0
    then ReadResult.read text
    else elim (c_string (piece ++ zeros (4096 - length piece))) [
      | none ↦ ReadResult.overrun
      | some s ↦ rest s
    ]

unfoldable pub read_key_file : Option KeyFile → ReadResult
read_key_file none = ReadResult.missing
read_key_file (some f) = read_pieces (suc (length f.contents)) f.size f.contents []

-- The part of LoadRSAKeyFiles for a name that may be empty. ReadKeyFile clears the key first.
unfoldable pub load_rsa_key : (List ℕ → Option KeyFile) → List ℕ → List ℕ → ReadResult
load_rsa_key files name old =
    if is_empty name then ReadResult.read old else read_key_file (files name)

-- LoadRSAKeyFiles; none is a read past the array.
unfoldable pub load_rsa_key_files :
    (List ℕ → Option KeyFile) → List ℕ → List ℕ → KeyStore → Option (Bool × KeyStore)
load_rsa_key_files files private public s = elim (load_rsa_key files private s.priv_key) [
  | ReadResult.overrun ↦ none
  | ReadResult.missing ↦ some (false, record s { priv_key = [] })
  | ReadResult.read k ↦ elim (load_rsa_key files public s.pub_key) [
    | ReadResult.overrun ↦ none
    | ReadResult.missing ↦ some (false, record s { priv_key = k; pub_key = [] })
    | ReadResult.read p ↦ some (true, record s { priv_key = k; pub_key = p })
  ]
]
