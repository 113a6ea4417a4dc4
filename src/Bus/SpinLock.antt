-- ===== src/Bus/SpinLock.antt =====
-- include/osp/bus.hpp: `SharedSpinLock`, the lock of the callback table, by one thread that meets no other.
-- `state` is the `int32_t` as a word. `Locals` are the thread-local variables, which are static members: all the
-- locks of a program share them. A loop that spins has fuel for its rounds; its exchange does not fail for
-- no reason.
use mathlib.Core.Option
use newosp.Base.{
  ℕ, zero, suc, ◌+◌, ◌-◌, ◌%◌, ◌^◌, ◌≤◌, ◌<◌, ◌≡◌, ◌≢◌, Bool, true, false, Option, none, some,
  arith, refl, ltb, ◌==◌, if◌then◌else◌, ◌>>=◌, ap, ◌∙◌,
}

pub record Locals : Type 0 where
  pub reader_depth : ℕ
  pub upgrade_writer : Bool
  pub upgrade_depth : ℕ

-- A lock as a thread sees it.
pub record View : Type 0 where
  pub state : ℕ
  pub locals : Locals

-- `kWriterActive`
abbrev pub writer_active : ℕ
writer_active = 2 ^ 32 - 1

unfoldable pub shared_spin : ℕ → ℕ → Option ℕ
shared_spin zero state = none
shared_spin (suc fuel) state =
    let rest = shared_spin fuel state in if ltb state (2 ^ 31) then some (state + 1) else rest

unfoldable pub lock_shared : ℕ → View → Option View
unfolding shared_spin
lock_shared fuel v =
    if ltb 0 v.locals.reader_depth
    then some (record v {
      locals = record v.locals { reader_depth = (v.locals.reader_depth + 1) % 2 ^ 32 };
    })
    else do
      state ← shared_spin fuel v.state
      some (record { state = state; locals = record v.locals { reader_depth = 1 } })

-- The assertion, which can be compiled out, is left out.
unfoldable pub unlock_shared : View → View
unlock_shared v =
    if ltb 1 v.locals.reader_depth
    then record v { locals = record v.locals { reader_depth = v.locals.reader_depth - 1 } }
    else record {
      state = (v.state + 2 ^ 32 - 1) % 2 ^ 32;
      locals = record v.locals { reader_depth = 0 };
    }

unfoldable pub lock_spin : ℕ → ℕ → Option ℕ
lock_spin zero state = none
lock_spin (suc fuel) state =
    let rest = lock_spin fuel state in if state == 0 then some writer_active else rest

unfoldable pub lock : ℕ → View → Option View
unfolding lock_spin
lock fuel v =
    let given_up : View =
      if ltb 0 v.locals.reader_depth
      then record {
        state = (v.state + 2 ^ 32 - v.locals.reader_depth) % 2 ^ 32;
        locals = record {
          reader_depth = 0;
          upgrade_writer = true;
          upgrade_depth = v.locals.reader_depth;
        };
      }
      else v in
    do state ← lock_spin fuel given_up.state; some (record given_up { state = state })

unfoldable pub unlock : View → View
unlock v =
    if v.locals.upgrade_writer
    then record {
      state = v.locals.upgrade_depth;
      locals = record v.locals { upgrade_writer = false; reader_depth = v.locals.upgrade_depth };
    }
    else record v { state = 0 }

-- `n` calls of `lock_shared` inside one another.
unfoldable pub nested : ℕ → ℕ → View → Option View
unfolding lock_shared
nested fuel zero v = some v
nested fuel (suc n) v = do w ← nested fuel n v; lock_shared fuel w

-- A free lock, to a thread that holds none.
abbrev pub unheld : View
unheld = record {
  state = 0;
  locals = record { reader_depth = 0; upgrade_writer = false; upgrade_depth = 0 };
}

lock_spin-none : (fuel state : ℕ) → state ≢ 0 → lock_spin fuel state ≡ none
unfolding lock_spin
lock_spin-none zero state h = refl
lock_spin-none (suc fuel) state h = ground (arith, lock_spin-none fuel state h)

lock_hangs :
    (fuel : ℕ) (v : View)
    → 0 < v.locals.reader_depth
    → v.locals.reader_depth < 2 ^ 32
    → v.state < 2 ^ 32
    → v.state ≢ v.locals.reader_depth
    → lock fuel v ≡ none
unfolding lock
lock_hangs fuel v deep d s h =
    ground (
      arith,
      lock_spin-none fuel ((v.state + 2 ^ 32 - v.locals.reader_depth) % 2 ^ 32) (omega arith),
    )

-- A thread that reads this deep, alone.
abbrev reading : ℕ → View
reading n = record {
  state = 1;
  locals = record { reader_depth = n; upgrade_writer = false; upgrade_depth = 0 };
}

-- Readers of any depth count once.
nested-eq :
    (fuel n : ℕ) → n + 1 < 2 ^ 32 → nested (suc fuel) (suc n) unheld ≡ some (reading (suc n))
unfolding nested lock_shared shared_spin
nested-eq fuel zero few = refl
nested-eq fuel (suc n) few =
    let again : lock_shared (suc fuel) (reading (suc n)) ≡ some (reading (suc (suc n))) =
      ground arith in
    ap (λ o. o >>= lock_shared (suc fuel)) (nested-eq fuel n (omega arith)) ∙ again

-- As many calls of `unlock_shared`.
unfoldable pub unlock_all : ℕ → View → View
unfolding unlock_shared
unlock_all zero v = v
unlock_all (suc n) v = unlock_all n (unlock_shared v)

unlock_all-reading : (n : ℕ) → unlock_all (suc n) (reading (suc n)) ≡ unheld
unfolding unlock_all unlock_shared
unlock_all-reading zero = refl
unlock_all-reading (suc n) =
    let step : unlock_shared (reading (suc (suc n))) ≡ reading (suc n) = ground arith in
    ap (unlock_all (suc n)) step ∙ unlock_all-reading n

-- A thread that has called `lock_shared` one or more times on a free lock, fewer than 2^32 times, and calls
-- `unlock_shared` as often, leaves the lock and its own counters as they were.
pub unlock_all-nested :
    (fuel n : ℕ)
    → n + 1 < 2 ^ 32
    → Option.map (unlock_all (suc n)) (nested (suc fuel) (suc n) unheld) ≡ some unheld
unlock_all-nested fuel n few =
    ap (Option.map (unlock_all (suc n))) (nested-eq fuel n few) ∙ ap some (unlock_all-reading n)

-- A thread inside one or more calls of `lock_shared`, fewer than 2^32, of a lock that no other thread holds
-- never returns from `lock` of the same lock if the calls are two or more, nor from `lock` of
-- another lock, a free one, however long it spins.
pub upgrade_hangs :
    (spins fuel n : ℕ)
    → n + 1 < 2 ^ 32
    → (v : View) × (nested (suc fuel) (suc n) unheld ≡ some v)
      × (2 ≤ suc n → lock spins v ≡ none)
      × (lock spins (record v { state = 0 }) ≡ none)
upgrade_hangs spins fuel n few = (
  reading (suc n),
  nested-eq fuel n few,
  λ deep.
      lock_hangs spins (reading (suc n)) (omega arith) (omega arith) (omega arith) (omega arith),
  lock_hangs spins (record (reading (suc n)) { state = 0 }) (omega arith) (omega arith)
      (omega arith) (omega arith),
)
