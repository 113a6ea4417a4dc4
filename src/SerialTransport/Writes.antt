-- ===== src/SerialTransport/Writes.antt =====
-- What WriteAll leaves on the port, and that it ends.
use mathlib.Core.List.{append_assoc, append-nil}
use native.Mathlib.Nat.{suc-mul, mul-le-mul_right}
use newosp.Base.{
  zero, suc, ◌+◌, ◌*◌, ◌%◌, ◌^◌, ◌≤◌, ◌<◌, true, false, Option, some, List, [], ◌∷◌, ◌++◌, ◌≡◌,
  refl, leb, length, take, drop, arith, ap, sym, ◌∙◌, subst, ◌⊎◌, ℕ, inl, inr, Bool-cases,
  take-append-drop, length-drop,
}
use newosp.SerialTransport.{
  SerialTransport, SerialConfig, send_failed, WriteResult, took, would_block, broken,
}
use newosp.SerialTransport.Send.{
  Expected, success, error, write_loop, write_all, count_write, count_write_of,
}

-- Every answer of write is documented: a count is of one byte at least.
abbrev pub Progresses : (ℕ → WriteResult) → Type 0
Progresses write = (k n : ℕ) → write k ≡ took n → 0 < n

-- The end of a write of bytes: all of them are on the port, or a part from the front and an error.
abbrev pub Ends : SerialTransport → List ℕ → Option (Expected × SerialTransport) → Type 0
Ends s bytes r =
    ((t : SerialTransport) × (r ≡ some (success, t))
      × (t.sent ≡ s.sent ++ bytes)
      × (t.tx_seq ≡ s.tx_seq))
    ⊎ ((t : SerialTransport) × (r ≡ some (error send_failed, t))
        × (pre : List ℕ) × (post : List ℕ) × (bytes ≡ pre ++ post)
        × (0 < length post)
        × (t.sent ≡ s.sent ++ pre)
        × (t.tx_seq ≡ s.tx_seq))

-- A part is on the port, and the rest of the bytes ends.
Ends-took :
    (s t : SerialTransport) (pre post : List ℕ) (r : Option (Expected × SerialTransport))
    → t.sent ≡ s.sent ++ pre
    → t.tx_seq ≡ s.tx_seq
    → Ends t post r
    → Ends s (pre ++ post) r
Ends-took s t pre post r e q (inl (t', f, h, q')) =
    inl (t', f, h ∙ ap (λ x. x ++ post) e ∙ append_assoc s.sent pre post, q' ∙ q)
Ends-took s t pre post r e q (inr (t', f, a, b, h, pos, h', q')) = inr (
  t',
  f,
  pre ++ a,
  b,
  ap (λ x. pre ++ x) h ∙ sym (append_assoc pre a b),
  pos,
  h' ∙ ap (λ x. x ++ a) e ∙ append_assoc s.sent pre a,
  q' ∙ q,
)

gave_up :
    (s t : SerialTransport) (bytes : List ℕ)
    → t.sent ≡ s.sent
    → t.tx_seq ≡ s.tx_seq
    → 0 < length bytes
    → Ends s bytes (some (error send_failed, t))
gave_up s t bytes e q pos = inr (t, refl, [], bytes, refl, pos, e ∙ sym (append-nil s.sent), q)

count_write-Ends :
    (s : SerialTransport) (bytes : List ℕ) (r : Option (Expected × SerialTransport))
    → Ends s bytes r
    → Ends s bytes (count_write (length bytes) r)
unfolding count_write
count_write-Ends s bytes r (inl (t, e, h, q)) =
    rw e (inl ((count_write_of (length bytes) t), refl, h, q))
count_write-Ends s bytes r (inr (t, e, pre, post, h, pos, h', q)) =
    rw e (inr (t, refl, pre, post, h, pos, h', q))

module _ (write : ℕ → WriteResult) (cfg : SerialConfig) (progress : Progresses write) where
  write_loop-Ends :
      (fuel : ℕ) (bytes : List ℕ) (retry_count : ℕ) (s : SerialTransport)
      → retry_count ≤ cfg.write_retry_count
      → length bytes * (cfg.write_retry_count + 1) ≤ fuel + retry_count
      → Ends s bytes (write_loop write cfg fuel bytes retry_count s)
  unfolding write_loop
  write_loop-Ends fuel [] retry_count s le enough = inl (s, refl, sym (append-nil s.sent), refl)
  write_loop-Ends zero (b ∷ rest) retry_count s le enough =
      absurd (omega (arith, suc-mul (length rest) (cfg.write_retry_count + 1)))
  write_loop-Ends (suc fuel) (b ∷ rest) retry_count s le enough =
      let called = record s { write_calls = s.write_calls + 1 } in
      elim (write s.write_calls)
          as (λ x.
            write s.write_calls ≡ x
            → Ends s (b ∷ rest) (elim x [
              | took n ↦
                  write_loop write cfg fuel (drop n (b ∷ rest)) 0
                    (record called { sent = s.sent ++ take n (b ∷ rest) })
              | broken ↦ some (error send_failed, called)
              | would_block ↦ elim (leb cfg.write_retry_count retry_count) [
                | true ↦ some (error send_failed, called)
                | false ↦ write_loop write cfg fuel (b ∷ rest) (retry_count + 1) (record called {
                  stats = record s.stats { write_retries = (s.stats.write_retries + 1) % 2 ^ 64 };
                })
              ]
            ])) [
              | took n ↦ λ e.
                  let some_taken = progress s.write_calls n e in
                  let rest' = drop n (b ∷ rest) in
                  let t : SerialTransport = record called { sent = s.sent ++ take n (b ∷ rest) } in
                  let shorter = length-drop n (b ∷ rest) in
                  let fewer =
                    mul-le-mul_right {m = length rest'} {n = length rest}
                      (cfg.write_retry_count + 1) (omega arith) in
                  let ends =
                    write_loop-Ends fuel rest' 0 t (omega arith)
                      (omega (arith, suc-mul (length rest) (cfg.write_retry_count + 1))) in
                  subst (λ l. Ends s l (write_loop write cfg fuel rest' 0 t))
                    (take-append-drop n (b ∷ rest))
                    (Ends-took s t (take n (b ∷ rest)) rest' (write_loop write cfg fuel rest' 0 t)
                      refl refl ends)
              | broken ↦ λ e. gave_up s called (b ∷ rest) refl refl (omega arith)
              | would_block ↦ λ e.
                  let t : SerialTransport = record called {
                    stats = record s.stats { write_retries = (s.stats.write_retries + 1) % 2 ^ 64 };
                  } in
                  elim (Bool-cases (leb cfg.write_retry_count retry_count)) [
                    | inl last ↦ rw last (gave_up s called (b ∷ rest) refl refl (omega arith))
                    | inr f ↦ rw f (
                        Ends-took s t [] (b ∷ rest)
                          (write_loop write cfg fuel (b ∷ rest) (retry_count + 1) t)
                          (sym (append-nil s.sent)) refl
                          (write_loop-Ends fuel (b ∷ rest) (retry_count + 1) t (ground arith)
                            (omega arith)))
                  ]
            ]
        refl

  -- WriteAll ends, within as many calls of write for each byte as there are retries and one more: the
  -- port has all bytes and the result is success, or it has a part from the front, without the last
  -- byte, and the result is an error. Each call takes one byte at least or fails.
  pub write_all-Ends :
      (fuel : ℕ) (bytes : List ℕ) (s : SerialTransport)
      → length bytes * (cfg.write_retry_count + 1) ≤ fuel
      → Ends s bytes (write_all write cfg fuel bytes s)
  unfolding write_all
  write_all-Ends fuel bytes s enough =
      count_write-Ends s bytes (write_loop write cfg fuel bytes 0 s)
        (write_loop-Ends fuel bytes 0 s (omega arith) (omega arith))
