-- ===== src/SpscRingbuffer/Tests.antt =====
-- The ring at concrete inputs: each theorem where its hypotheses hold.
use newosp.Base.{set, ℕ, ◌≡◌, ◌+◌, ◌^◌, refl, arith, List, [], ◌∷◌, some, true}
use newosp.SpscRingbuffer.{Ring, push, size}
use newosp.SpscRingbuffer.Contents.{contents}
use newosp.SpscRingbuffer.Fifo.{
  Call, pushes, pushes_batch, pops, peeks, clears, pops_batch, discards, counted, elements,
}
use newosp.SpscRingbuffer.Refine.{IsValid, IsWide}
use newosp.SpscRingbuffer.Client.{run, run_refines}
use newosp.SpscRingbuffer.Narrow.{narrow_push_overflows}
use newosp.SpscRingbuffer.Fifo

-- A ring of four slots, of which the indices have wrapped: it holds 7, 8 and 9.
abbrev wrapped : Ring ℕ
wrapped = record { data_buff = 8 ∷ 9 ∷ 5 ∷ 7 ∷ []; head = 2; tail = 4294967295 }

wrapped-IsValid : IsValid 32 2 wrapped
wrapped-IsValid = record {
  storage = refl;
  head_in = omega arith;
  tail_in = omega arith;
  within = omega arith;
}

uint32-IsWide : IsWide 32 2
uint32-IsWide = record { unpromoted = omega arith; gap = omega arith }

abbrev calls : List (Call ℕ)
calls =
    pushes 1
    ∷ pushes 2
    ∷ pops_batch 2
    ∷ pushes_batch (3 ∷ 4 ∷ 5 ∷ [])
    ∷ peeks
    ∷ discards 1
    ∷ pops
    ∷ clears
    ∷ pops
    ∷ []

run_refines_example :
    run 0 32 2 true wrapped calls ≡ some (Fifo.run (2 ^ 2) (contents 0 32 2 wrapped) calls)
run_refines_example = run_refines 0 32 2 true wrapped calls uint32-IsWide wrapped-IsValid

-- A full ring of four slots with indices of eight bits.
abbrev narrow : Ring ℕ
narrow = record { data_buff = 8 ∷ 9 ∷ 5 ∷ 7 ∷ []; head = 2; tail = 254 }

narrow-IsValid : IsValid 8 2 narrow
narrow-IsValid = record {
  storage = refl;
  head_in = omega arith;
  tail_in = omega arith;
  within = omega arith;
}

narrow_push_overflows_example :
    ((push 8 2 narrow 6).0 ≡ true)
    × (size 8 2 (push 8 2 narrow 6).1 ≡ 2 ^ 2 + 1)
    × ((push 8 2 narrow 6).1.data_buff ≡ set narrow.data_buff 2 6)
    × ((push 8 2 narrow 6).1.tail ≡ 254)
narrow_push_overflows_example =
    narrow_push_overflows 8 2 narrow 6 (omega arith) (omega arith) narrow-IsValid refl (omega arith)
