-- ===== src/Go/Sha256.antt =====
-- `crypto/sha256` and `crypto/hmac`: FIPS 180-4 and RFC 2104. A word is a number below 2 ^ 32.
use Prim.Native.Nat.{bit_and, bit_xor}
use concevoir_une_api_pagine.Prelude.{
  ℕ, zero, suc, ◌+◌, ◌-◌, ◌*◌, ◌/◌, ◌%◌, ◌^◌, ◌<◌, ◌≡◌, refl, List, [], ◌∷◌, ◌++◌, Bytes, ltb,
  if◌then◌else◌, length, take, drop, All, arith, map,
}

abbrev replicate : ℕ → ℕ → Bytes
replicate zero b = []
replicate (suc n) b = b ∷ replicate n b

abbrev word : ℕ
word = 2 ^ 32

abbrev rotate_right : ℕ → ℕ → ℕ
rotate_right k x = x / 2 ^ k + x % 2 ^ k * 2 ^ (32 - k)

abbrev xor3 : ℕ → ℕ → ℕ → ℕ
xor3 x y z = bit_xor (bit_xor x y) z

-- The eight working variables, or the hash value between two blocks.
record State : Type 0 where
  a : ℕ
  b : ℕ
  c : ℕ
  d : ℕ
  e : ℕ
  f : ℕ
  g : ℕ
  h : ℕ

round : State → ℕ → ℕ → State
round s k w =
    let big1 = xor3 (rotate_right 6 s.e) (rotate_right 11 s.e) (rotate_right 25 s.e) in
    let choice = bit_xor (bit_and s.e s.f) (bit_and (word - 1 - s.e) s.g) in
    let t1 = s.h + big1 + choice + k + w in
    let big0 = xor3 (rotate_right 2 s.a) (rotate_right 13 s.a) (rotate_right 22 s.a) in
    let majority = xor3 (bit_and s.a s.b) (bit_and s.a s.c) (bit_and s.b s.c) in
    record {
      a = (t1 + big0 + majority) % word;
      b = s.a;
      c = s.b;
      d = s.c;
      e = (s.d + t1) % word;
      f = s.e;
      g = s.f;
      h = s.g;
    }

-- The message schedule as a window of sixteen words: the first is used, a new one joins behind.
schedule : List ℕ → List ℕ
schedule (w0 ∷ w1 ∷ w2 ∷ w3 ∷ w4 ∷ w5 ∷ w6 ∷ w7 ∷ w8 ∷ w9 ∷ w10 ∷ w11 ∷ w12 ∷ w13 ∷ w14 ∷ w15 ∷ _) =
    let small0 = xor3 (rotate_right 7 w1) (rotate_right 18 w1) (w1 / 2 ^ 3) in
    let small1 = xor3 (rotate_right 17 w14) (rotate_right 19 w14) (w14 / 2 ^ 10) in
    let next = (w0 + small0 + w9 + small1) % word in
    w1 ∷ w2 ∷ w3 ∷ w4 ∷ w5 ∷ w6 ∷ w7 ∷ w8 ∷ w9 ∷ w10 ∷ w11 ∷ w12 ∷ w13 ∷ w14 ∷ w15 ∷ next ∷ []
schedule w = w

abbrev head_or_zero : List ℕ → ℕ
head_or_zero [] = 0
head_or_zero (w ∷ _) = w

rounds : List ℕ → State → List ℕ → State
rounds [] s w = s
rounds (k ∷ ks) s w = rounds ks (round s k (head_or_zero w)) (schedule w)

abbrev add : ℕ → ℕ → ℕ
add x y = (x + y) % word

join_states : State → State → State
join_states s t = record {
  a = add s.a t.a;
  b = add s.b t.b;
  c = add s.c t.c;
  d = add s.d t.d;
  e = add s.e t.e;
  f = add s.f t.f;
  g = add s.g t.g;
  h = add s.h t.h;
}

words : Bytes → List ℕ
words (p ∷ q ∷ r ∷ s ∷ rest) = (p * 2 ^ 24 + q * 2 ^ 16 + r * 2 ^ 8 + s) ∷ words rest
words _ = []

initial : State
initial = record {
  a = 0x6a09e667;
  b = 0xbb67ae85;
  c = 0x3c6ef372;
  d = 0xa54ff53a;
  e = 0x510e527f;
  f = 0x9b05688c;
  g = 0x1f83d9ab;
  h = 0x5be0cd19;
}

constants : List ℕ
constants =
    0x428a2f98 ∷ 0x71374491 ∷ 0xb5c0fbcf ∷ 0xe9b5dba5 ∷ 0x3956c25b ∷ 0x59f111f1 ∷ 0x923f82a4
    ∷ 0xab1c5ed5 ∷ 0xd807aa98 ∷ 0x12835b01 ∷ 0x243185be ∷ 0x550c7dc3 ∷ 0x72be5d74 ∷ 0x80deb1fe
    ∷ 0x9bdc06a7 ∷ 0xc19bf174 ∷ 0xe49b69c1 ∷ 0xefbe4786 ∷ 0x0fc19dc6 ∷ 0x240ca1cc ∷ 0x2de92c6f
    ∷ 0x4a7484aa ∷ 0x5cb0a9dc ∷ 0x76f988da ∷ 0x983e5152 ∷ 0xa831c66d ∷ 0xb00327c8 ∷ 0xbf597fc7
    ∷ 0xc6e00bf3 ∷ 0xd5a79147 ∷ 0x06ca6351 ∷ 0x14292967 ∷ 0x27b70a85 ∷ 0x2e1b2138 ∷ 0x4d2c6dfc
    ∷ 0x53380d13 ∷ 0x650a7354 ∷ 0x766a0abb ∷ 0x81c2c92e ∷ 0x92722c85 ∷ 0xa2bfe8a1 ∷ 0xa81a664b
    ∷ 0xc24b8b70 ∷ 0xc76c51a3 ∷ 0xd192e819 ∷ 0xd6990624 ∷ 0xf40e3585 ∷ 0x106aa070 ∷ 0x19a4c116
    ∷ 0x1e376c08 ∷ 0x2748774c ∷ 0x34b0bcb5 ∷ 0x391c0cb3 ∷ 0x4ed8aa4a ∷ 0x5b9cca4f ∷ 0x682e6ff3
    ∷ 0x748f82ee ∷ 0x78a5636f ∷ 0x84c87814 ∷ 0x8cc70208 ∷ 0x90befffa ∷ 0xa4506ceb ∷ 0xbef9a3f7
    ∷ 0xc67178f2 ∷ []

-- One block of 64 bytes for each unit of fuel, and no more blocks than bytes.
blocks : ℕ → State → Bytes → State
blocks zero s m = s
blocks (suc n) s [] = s
blocks (suc n) s (p ∷ m) =
    blocks n (join_states s (rounds constants s (words (take 64 (p ∷ m))))) (drop 64 (p ∷ m))

-- A big-endian number in as many bytes as asked.
big_endian : ℕ → ℕ → Bytes
big_endian zero x = []
big_endian (suc n) x = (x / 2 ^ (8 * n) % 256) ∷ big_endian n x

pad : Bytes → Bytes
pad m = m ++ (0x80 ∷ replicate ((119 - length m % 64) % 64) 0) ++ big_endian 8 (8 * length m)

abbrev four_bytes : ℕ → Bytes → Bytes
four_bytes x rest = (x / 2 ^ 24 % 256) ∷ (x / 2 ^ 16 % 256) ∷ (x / 2 ^ 8 % 256) ∷ (x % 256) ∷ rest

abbrev digest : State → Bytes
digest s = four_bytes s.a (
    four_bytes s.b (
      four_bytes s.c
        (four_bytes s.d (four_bytes s.e (four_bytes s.f (four_bytes s.g (four_bytes s.h [])))))))

unfoldable pub sum256 : Bytes → Bytes
unfolding round schedule rounds join_states words initial constants blocks big_endian pad
sum256 m = digest (blocks (length (pad m)) initial (pad m))

pub length-sum256 : (m : Bytes) → length (sum256 m) ≡ 32
unfolding sum256
length-sum256 m = refl

-- A key longer than a block is hashed first; then it is filled up with zeros.
unfoldable pub block_key : Bytes → Bytes
block_key key =
    let k = if ltb 64 (length key) then sum256 key else key in k ++ replicate (64 - length k) 0

-- `hmac.New(sha256.New, key)`, `Write(m)` and `Sum(nil)`.
unfoldable pub hmac : Bytes → Bytes → Bytes
unfolding sum256 block_key
hmac key m =
    let k = block_key key in sum256 (map (bit_xor 0x5c) k ++ sum256 (map (bit_xor 0x36) k ++ m))

pub length-hmac : (key m : Bytes) → length (hmac key m) ≡ 32
unfolding hmac
length-hmac key m = refl

abbrev IsByte : ℕ → Type 0
IsByte b = b < 256

digest-IsByte : (s : State) → All IsByte (digest s)
digest-IsByte s = omega arith

pub sum256-IsByte : (m : Bytes) → All IsByte (sum256 m)
unfolding sum256
sum256-IsByte m = digest-IsByte (blocks (length (pad m)) initial (pad m))

pub hmac-IsByte : (key m : Bytes) → All IsByte (hmac key m)
unfolding hmac
hmac-IsByte key m =
    let k = block_key key in
    sum256-IsByte (map (bit_xor 0x5c) k ++ sum256 (map (bit_xor 0x36) k ++ m))

empty_digest : take 4 (sum256 []) ≡ 0xe3 ∷ 0xb0 ∷ 0xc4 ∷ 0x42 ∷ []
unfolding sum256
empty_digest = refl
