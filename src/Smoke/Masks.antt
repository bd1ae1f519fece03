-- ===== src/Smoke/Masks.antt =====
-- What a server makes of a frame from `ws_frame`.
use Prim.Native.Nat.{bit_xor}
use orochi.Prelude.{
  ℕ, zero, suc, ◌+◌, ◌<◌, Bool, true, false, ◌&&◌, Option, none, some, [], ◌∷◌, ◌++◌, ◌≡◌, refl,
  sym, ap, ◌∙◌, subst, ◌%◌, ◌^◌, All-append, append_assoc, ◌>>=◌, inl, inr, arith, ltb, ◌==◌,
  if◌then◌else◌, Bool-cases, length, length-append, All,
}
use orochi.Smoke.{Bytes, Frame, masked, ws_frame, length_field, split_at}
use orochi.Smoke.Frames.Sent.{length_head, length_tail, split_at-length, length_field-length_tail}

-- The bytes below `n` come back when they are masked twice with `m`, by evaluation.
come_back : ℕ → ℕ → Bool
come_back m zero = true
come_back m (suc n) = bit_xor (bit_xor n m) m == n && come_back m n

-- So they do for all masks below a bound.
masks_come_back : ℕ → ℕ → Bool
unfolding come_back
masks_come_back n zero = true
masks_come_back n (suc m) = come_back m n && masks_come_back n m

byte_table : masks_come_back 256 256 ≡ true
unfolding masks_come_back
byte_table = refl

come_back-restores : (m n c : ℕ) → come_back m n ≡ true → c < n → bit_xor (bit_xor c m) m ≡ c
unfolding come_back
come_back-restores m zero c h i = absurd (omega arith)
come_back-restores m (suc n) c h i = ground (arith, come_back-restores m n c)

masks_come_back-all : (n k m : ℕ) → masks_come_back n k ≡ true → m < k → come_back m n ≡ true
unfolding masks_come_back
masks_come_back-all n zero m h i = absurd (omega arith)
masks_come_back-all n (suc k) m h i = ground (arith, masks_come_back-all n k m)

byte_twice : (c m : ℕ) → c < 256 → m < 256 → bit_xor (bit_xor c m) m ≡ c
byte_twice c m h k = come_back-restores m 256 c (masks_come_back-all 256 256 m byte_table k) h

abbrev pub AreBytes : Bytes → Type 0
AreBytes s = All (λ c. c < 256) s

masked-masked :
    (mask s : Bytes)
    → 0 < length mask
    → AreBytes mask
    → AreBytes s
    → masked mask (masked mask s) ≡ s
unfolding masked
masked-masked mask [] h k b = refl
masked-masked [] (c ∷ s) h k b = absurd (omega arith)
masked-masked (m ∷ mask) (c ∷ s) h k b =
    let i = byte_twice c m b.0 k.0 in
    let j =
      masked-masked (mask ++ m ∷ []) s (omega (arith, length-append mask (m ∷ [])))
        (All-append _ mask (m ∷ []) k.1 (k.0, tt)) b.1 in
    rw (i, j) refl

length-masked : (mask s : Bytes) → 0 < length mask → length (masked mask s) ≡ length s
unfolding masked
length-masked mask [] h = refl
length-masked [] (c ∷ s) h = absurd (omega arith)
length-masked (m ∷ mask) (c ∷ s) h =
    omega (arith, length-masked (mask ++ m ∷ []) s (omega (arith, length-append mask (m ∷ []))))

-- Byte number `i` of a key.
abbrev key_byte : Bytes → ℕ → ℕ
key_byte [] i = 0
key_byte (m ∷ mask) zero = m
key_byte (m ∷ mask) (suc i) = key_byte mask i

-- The masking of RFC 6455, section 5.3, of a payload from its octet number `i` on: octet `i` is
-- combined with octet `i` modulo 4 of the key.
unfoldable pub unmask : Bytes → ℕ → Bytes → Bytes
unmask mask i [] = []
unmask mask i (c ∷ s) = bit_xor c (key_byte mask (i % 4)) ∷ unmask mask (suc i) s

-- A key that is turned by one byte for each octet gives the octets of the RFC.
masked-unmask :
    (mask s : Bytes) (i : ℕ)
    → masked
        (key_byte mask (i % 4)
          ∷ key_byte mask (suc i % 4)
          ∷ key_byte mask (suc (suc i) % 4)
          ∷ key_byte mask (suc (suc (suc i)) % 4)
          ∷ [])
        s
      ≡ unmask mask i s
unfolding masked unmask
masked-unmask mask [] i = refl
masked-unmask mask (c ∷ s) i =
    let turn : suc (suc (suc (suc i))) % 4 ≡ i % 4 = omega arith in
    let rest = masked-unmask mask s (suc i) in
    ap (λ r. bit_xor c (key_byte mask (i % 4)) ∷ r)
      (subst
        (λ k.
          masked
            (key_byte mask (suc i % 4)
              ∷ key_byte mask (suc (suc i) % 4)
              ∷ key_byte mask (suc (suc (suc i)) % 4)
              ∷ key_byte mask k
              ∷ [])
            s
          ≡ unmask mask (suc i) s)
        turn rest)

four_bytes : (mask : Bytes) → length mask ≡ 4 → (s : Bytes) → unmask mask 0 s ≡ masked mask s
four_bytes [] h s = absurd (omega arith)
four_bytes (a ∷ []) h s = absurd (omega arith)
four_bytes (a ∷ b ∷ []) h s = absurd (omega arith)
four_bytes (a ∷ b ∷ c ∷ []) h s = absurd (omega arith)
four_bytes (a ∷ b ∷ c ∷ d ∷ []) h s = sym (masked-unmask (a ∷ b ∷ c ∷ d ∷ []) s 0)
four_bytes (a ∷ b ∷ c ∷ d ∷ e ∷ mask) h s = absurd (omega arith)

-- A server's reading of a masked frame after RFC 6455, and the bytes behind it.
abbrev pub unframe : Bytes → Option (Frame × Bytes)
unframe [] = none
unframe (b0 ∷ []) = none
unframe (b0 ∷ b1 ∷ s) = if ltb b1 128 then none else (do
  (n, r) ← length_field (b1 % 128) s
  (mask, q) ← split_at 4 r
  (p, rest) ← split_at n q
  some (record { opcode = b0 % 16; payload = unmask mask 0 p }, rest))

split_at-exact : (n : ℕ) (a r : Bytes) → length a ≡ n → split_at n (a ++ r) ≡ some (a, r)
split_at-exact n a r e = subst (λ m. split_at m (a ++ r) ≡ some (a, r)) e (split_at-length a r)

-- The frame of a payload that is short enough.
abbrev client_bytes : Bytes → Bytes → Bytes
client_bytes mask payload =
    let n = length payload in
    0x81 ∷ (0x80 + length_head n) ∷ (length_tail n ++ (mask ++ masked mask payload))

ws_frame-client_bytes :
    (mask payload : Bytes)
    → length payload < 65536
    → ws_frame mask payload ≡ some (client_bytes mask payload)
unfolding ws_frame
ws_frame-client_bytes mask payload i = elim (Bool-cases (ltb (length payload) 126)) [
  | inl e ↦ rw e refl
  | inr e ↦ let j : ltb (length payload) 65536 ≡ true = ground arith in rw (e, j) refl
]

unframe-step :
    (h : ℕ) (s : Bytes)
    → unframe (0x81 ∷ (0x80 + h) ∷ s) ≡ (do
      (n, r) ← length_field (h % 128) s
      (mask, q) ← split_at 4 r
      (p, rest) ← split_at n q
      some (record { opcode = 1; payload = unmask mask 0 p }, rest))
unframe-step h s =
    let i : ltb (128 + h) 128 ≡ false = ground arith in
    let j : (128 + h) % 128 ≡ h % 128 = omega arith in rw (i, j) refl

unframe-client_bytes :
    (mask payload rest : Bytes)
    → length mask ≡ 4
    → AreBytes mask
    → AreBytes payload
    → length payload < 256 ^ 8
    → unframe (client_bytes mask payload ++ rest)
      ≡ some (record { opcode = 1; payload = payload }, rest)
unframe-client_bytes mask payload rest h k b i =
    let n = length payload in
    let secret = masked mask payload in
    let same_length : length secret ≡ n = length-masked mask payload (omega arith) in
    unframe-step (length_head n) _
    ∙ rw
        (
          append_assoc (length_tail n) (mask ++ secret) rest,
          append_assoc mask secret rest,
          length_field-length_tail n (mask ++ (secret ++ rest)) i,
          split_at-exact 4 mask (secret ++ rest) h,
          split_at-exact n secret rest same_length,
          four_bytes mask h secret,
          masked-masked mask payload (omega arith) k b,
        )
        refl

-- A server that removes the mask as RFC 6455 says, octet `i` with octet `i` modulo 4 of the key, reads from a frame of `ws_frame` one text frame with the payload,
-- and then the bytes behind it, for four bytes of mask and a payload of fewer than 65536 bytes.
pub unframe-ws_frame :
    (mask payload rest : Bytes)
    → length mask ≡ 4
    → AreBytes mask
    → AreBytes payload
    → length payload < 65536
    → (ws_frame mask payload >>= (λ s. unframe (s ++ rest)))
      ≡ some (record { opcode = 1; payload = payload }, rest)
unframe-ws_frame mask payload rest h k b i =
    rw (ws_frame-client_bytes mask payload i)
      (unframe-client_bytes mask payload rest h k b (omega arith))
