-- ===== src/SerialTransport/Bytes.antt =====
-- The bytes of 16-bit fields, written and read back.
use newosp.Base.{
  ◌+◌, ◌*◌, ◌/◌, ◌%◌, ◌^◌, ◌<◌, List, ◌++◌, ◌≡◌, refl, length, arith, ℕ, bit_and-mask,
  bit_or-fields, get_or-append, get_or-append_right,
}
use newosp.SerialTransport.{write_le16, read_le16}

pub read_le16-write_le16 :
    (xs ys : List ℕ) (v at : ℕ)
    → v < 2 ^ 16
    → at ≡ length xs
    → read_le16 (xs ++ (write_le16 v ++ ys)) at ≡ v
unfolding read_le16 write_le16
read_le16-write_le16 xs ys v at lt e =
    let low = bit_and-mask 8 v in
    let high = bit_and-mask 8 (v / 2 ^ 8) in
    let p0 = get_or-append_right xs (write_le16 v ++ ys) at 0 0 (omega arith) in
    let p1 = get_or-append_right xs (write_le16 v ++ ys) (at + 1) 1 0 (omega arith) in
    let lo : v % 2 ^ 8 % 2 ^ 16 ≡ v % 2 ^ 8 = omega arith in
    let hi : v / 2 ^ 8 % 2 ^ 8 % 2 ^ 16 * 2 ^ 8 % 2 ^ 16 ≡ v / 2 ^ 8 * 2 ^ 8 = omega arith in
    let join = bit_or-fields 8 (v % 2 ^ 8) (v / 2 ^ 8) (omega arith) in
    rw (p0, p1, low, high, lo, hi, join) (omega arith)

pub read_le16-append :
    (xs ys : List ℕ) (at : ℕ) → at + 1 < length xs → read_le16 (xs ++ ys) at ≡ read_le16 xs at
unfolding read_le16
read_le16-append xs ys at lt =
    rw (get_or-append xs ys at 0 (omega arith), get_or-append xs ys (at + 1) 0 (omega arith)) refl

pub length-write_le16 : (v : ℕ) → length (write_le16 v) ≡ 2
unfolding write_le16
length-write_le16 v = refl
