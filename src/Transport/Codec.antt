-- ===== src/Transport/Codec.antt =====
-- Frame headers written and read back.
use newosp.Base.{
  ℕ, ◌^◌, ◌≤◌, ◌<◌, ◌≡◌, refl, true, List, [], ◌∷◌, ◌++◌, length, drop, arith, ap, sym, subst, ltb,
  if_intro, if◌then◌else◌, ◌==◌,
}
use newosp.Transport.{
  FrameHeader, FrameHeaderV1, bytes_of, number_of, encode_header, decode_header, encode_header_v1,
  decode_header_v1, detect_version, frame_magic_v0, frame_magic_v1, copy_out,
}
use newosp.Transport.Copies.{number_of-bytes_of, joined, copy_parts-append}

-- The fields fit their types.
pub record Fits (h : FrameHeader) : Type 0 where
  pub magic : h.magic < 2 ^ 32
  pub size : h.length < 2 ^ 32
  pub type_index : h.type_index < 2 ^ 16
  pub sender : h.sender_id < 2 ^ 32

pub record FitsV1 (h : FrameHeaderV1) : Type 0 where
  pub magic : h.magic < 2 ^ 32
  pub size : h.length < 2 ^ 32
  pub type_index : h.type_index < 2 ^ 16
  pub sender : h.sender_id < 2 ^ 32
  pub seq : h.seq_num < 2 ^ 32
  pub time : h.timestamp_ns < 2 ^ 64

abbrev fields : FrameHeader → List (List ℕ)
fields h =
    bytes_of 4 h.magic ∷ bytes_of 4 h.length ∷ bytes_of 2 h.type_index ∷ bytes_of 4 h.sender_id ∷ []

abbrev fields_v1 : FrameHeaderV1 → List (List ℕ)
fields_v1 h =
    bytes_of 4 h.magic
    ∷ bytes_of 4 h.length
    ∷ bytes_of 2 h.type_index
    ∷ bytes_of 4 h.sender_id
    ∷ bytes_of 4 h.seq_num
    ∷ bytes_of 8 h.timestamp_ns
    ∷ []

-- The version that a magic number means.
abbrev pub version_of : ℕ → ℕ
version_of magic = if magic == frame_magic_v0 then 0 else if magic == frame_magic_v1 then 1 else 255

-- What a caller reads from what was written: the size, the header, its version, and what is behind it.
abbrev pub Reads : FrameHeader → List ℕ → ℕ → FrameHeader → ℕ × List ℕ → Type 0
Reads h buf size out (n, buf') =
    (n ≡ 14)
    × (decode_header buf' size out ≡ (true, h))
    × (detect_version buf' size ≡ version_of h.magic)
    × (drop 14 buf' ≡ drop 14 buf)

encode_header-eq :
    (h : FrameHeader) (buf : List ℕ) (size : ℕ)
    → 14 ≤ size
    → 14 ≤ length buf
    → encode_header h buf size ≡ (14, joined (fields h) ++ drop 14 buf)
unfolding encode_header
encode_header-eq h buf size s l =
    if_intro (λ x. x ≡ (14, joined (fields h) ++ drop 14 buf)) (ltb size 14)
      (λ e. absurd (ground arith))
      (λ e. ap (λ b. (14, b)) (copy_parts-append (fields h) [] buf 0 refl l))

-- The fields of a header are equal if their numbers are.
same_header :
    (h : FrameHeader) (a b c d : ℕ)
    → a ≡ h.magic
    → b ≡ h.length
    → c ≡ h.type_index
    → d ≡ h.sender_id
    → record { magic = a; length = b; type_index = c; sender_id = d } ≡ h
same_header h a b c d e f g i = ground arith

-- A frame header that fits its types, written into a buffer of 14 bytes or more, is read back, with its
-- version, and the bytes behind it are as before.
pub decode_header-encode_header :
    (h : FrameHeader) (buf : List ℕ) (size : ℕ) (out : FrameHeader)
    → Fits h
    → 14 ≤ size
    → 14 ≤ length buf
    → Reads h buf size out (encode_header h buf size)
unfolding decode_header detect_version copy_out
decode_header-encode_header h buf size out fits s l =
    let magic = number_of-bytes_of 4 h.magic fits.magic in
    let header =
      same_header h (number_of (bytes_of 4 h.magic)) (number_of (bytes_of 4 h.length))
        (number_of (bytes_of 2 h.type_index)) (number_of (bytes_of 4 h.sender_id)) magic
        (number_of-bytes_of 4 h.length fits.size)
        (number_of-bytes_of 2 h.type_index fits.type_index)
        (number_of-bytes_of 4 h.sender_id fits.sender) in
    subst (Reads h buf size out) (sym (encode_header-eq h buf size s l)) (
      refl,
      if_intro (λ x. x ≡ (true, h)) (ltb size 14) (λ e. absurd (ground arith))
          (λ e. ap (λ x. (true, x)) header),
      if_intro (λ x. x ≡ version_of h.magic) (ltb size 4) (λ e. absurd (ground arith))
          (λ e. ap version_of magic),
      refl,
    )

-- The same of a header of version 1.
abbrev pub ReadsV1 : FrameHeaderV1 → List ℕ → ℕ → FrameHeaderV1 → ℕ × List ℕ → Type 0
ReadsV1 h buf size out (n, buf') =
    (n ≡ 26)
    × (decode_header_v1 buf' size out ≡ (true, h))
    × (detect_version buf' size ≡ version_of h.magic)
    × (drop 26 buf' ≡ drop 26 buf)

encode_header_v1-eq :
    (h : FrameHeaderV1) (buf : List ℕ) (size : ℕ)
    → 26 ≤ size
    → 26 ≤ length buf
    → encode_header_v1 h buf size ≡ (26, joined (fields_v1 h) ++ drop 26 buf)
unfolding encode_header_v1
encode_header_v1-eq h buf size s l =
    if_intro (λ x. x ≡ (26, joined (fields_v1 h) ++ drop 26 buf)) (ltb size 26)
      (λ e. absurd (ground arith))
      (λ e. ap (λ b. (26, b)) (copy_parts-append (fields_v1 h) [] buf 0 refl l))

same_header_v1 :
    (h : FrameHeaderV1) (a b c d q t : ℕ)
    → a ≡ h.magic
    → b ≡ h.length
    → c ≡ h.type_index
    → d ≡ h.sender_id
    → q ≡ h.seq_num
    → t ≡ h.timestamp_ns
    → record { magic = a; length = b; type_index = c; sender_id = d; seq_num = q; timestamp_ns = t }
      ≡ h
same_header_v1 h a b c d q t e f g i j k = ground arith

-- A frame header of version 1 that fits its types, written into a buffer of 26 bytes or more, is read back,
-- with its version, and the bytes behind it are as before.
pub decode_header_v1-encode_header_v1 :
    (h : FrameHeaderV1) (buf : List ℕ) (size : ℕ) (out : FrameHeaderV1)
    → FitsV1 h
    → 26 ≤ size
    → 26 ≤ length buf
    → ReadsV1 h buf size out (encode_header_v1 h buf size)
unfolding decode_header_v1 detect_version copy_out
decode_header_v1-encode_header_v1 h buf size out fits s l =
    let magic = number_of-bytes_of 4 h.magic fits.magic in
    let header =
      same_header_v1 h (number_of (bytes_of 4 h.magic)) (number_of (bytes_of 4 h.length))
        (number_of (bytes_of 2 h.type_index)) (number_of (bytes_of 4 h.sender_id))
        (number_of (bytes_of 4 h.seq_num)) (number_of (bytes_of 8 h.timestamp_ns)) magic
        (number_of-bytes_of 4 h.length fits.size)
        (number_of-bytes_of 2 h.type_index fits.type_index)
        (number_of-bytes_of 4 h.sender_id fits.sender) (number_of-bytes_of 4 h.seq_num fits.seq)
        (number_of-bytes_of 8 h.timestamp_ns fits.time) in
    subst (ReadsV1 h buf size out) (sym (encode_header_v1-eq h buf size s l)) (
      refl,
      if_intro (λ x. x ≡ (true, h)) (ltb size 26) (λ e. absurd (ground arith))
          (λ e. ap (λ x. (true, x)) header),
      if_intro (λ x. x ≡ version_of h.magic) (ltb size 4) (λ e. absurd (ground arith))
          (λ e. ap version_of magic),
      refl,
    )
