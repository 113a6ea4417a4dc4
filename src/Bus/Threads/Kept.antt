-- ===== src/Bus/Threads/Kept.antt =====
-- Each move of a producer is one of the effects on the ring, and keeps the invariant.
use native.Mathlib.Nat.{pow-suc}
use newosp.Base.{
  ℕ, zero, suc, ◌+◌, ◌*◌, ◌^◌, ◌≤◌, ◌<◌, ◌≡◌, sym, some, arith, refl, pow-pos, dec_lt, subst, ap,
  ◌∙◌,
}
use newosp.Bus.{slot_of, update, word, evict_offset}
use newosp.Bus.Threads.{
  Shared, Kind, fresh, evicting, marked, Pc, idle, exchanging, writing, owning, set_sequence,
  scanned, held, scanning, reserving, restoring,
}
use newosp.Bus.Threads.Moves.{
  Move, load_prod, matches, differs, fall, claim, scan_from, peek, not_pending, already_high, lower,
  reserve, reserve_fails, became_high, restore, confirm, fetch_id, write_header, write_payload,
  write_priority, publish,
}
use newosp.Bus.Threads.Slots.{slot_of-add, later_position}
use newosp.Bus.Threads.Owners.{owned, node_at, Knows, Inv}
use newosp.Bus.Threads.Effects.{Effect, quiet, claims, reserves, writes, ends}

-- The depth is two at least.
above_two : (bits : ℕ) → 1 ≤ bits → 2 ≤ 2 ^ bits
above_two zero wide = absurd (omega arith)
above_two (suc bits) wide = omega (arith, pow-suc 2 bits, pow-pos bits)

module _ {bits c : ℕ} (wide : 1 ≤ bits) {A : Type 0} {m : Shared A} {pcs : ℕ → Pc A}
    (few : m.claims + 3 * 2 ^ bits < 2 ^ 32) (inv : Inv bits m pcs c) where
  open inv use {free, live, owns, unique, knows, produced, behind, filled, room}

  pub two_slots : 2 ≤ 2 ^ bits
  two_slots = above_two bits wide

  -- A sequence that says `p + 1` is that of the position `p` itself, which is pending.
  pub pending_position :
      (p : ℕ) → p < c + 2 ^ bits → (node_at bits m p).sequence ≡ p + 1 → (c ≤ p) × (p < m.claims)
  pending_position p lt e = elim (dec_lt p c) [
    | yes passed ↦
        let (q, from, to, far, s) = later_position bits c c p passed (omega arith) in
        let e' : (node_at bits m q).sequence ≡ p + 1 = ap (λ x. (m.nodes x).sequence) s ∙ e in
        elim (dec_lt q m.claims) [
          | yes pending ↦ absurd (omega (arith, two_slots, (live q from pending).phase))
          | no empty ↦ absurd (omega (arith, two_slots, free q (omega arith) to))
        ]
    | no ahead ↦ elim (dec_lt p m.claims) [
      | yes pending ↦ (omega arith, pending)
      | no empty ↦ absurd (omega (arith, free p (omega arith) lt))
    ]
  ]

  -- A slot that is free at the position of the next claim leaves room for it.
  room_to_claim : (node_at bits m m.claims).sequence ≡ m.claims → m.claims < c + 2 ^ bits
  room_to_claim e = elim (dec_lt m.claims (c + 2 ^ bits)) [
    | yes room ↦ room
    | no full ↦
        let same : m.claims ≡ c + 2 ^ bits = omega arith in
        let e' : (node_at bits m c).sequence ≡ m.claims =
          ap (λ x. (m.nodes x).sequence) (sym (ap (slot_of bits) same ∙ slot_of-add bits c)) ∙ e in
        absurd (omega (arith, two_slots, (live c (omega arith) (omega (arith, two_slots))).phase))
  ]

  Move-Effect :
      {pc pc' : Pc A} {m' : Shared A}
      → Move bits m pc m' pc'
      → Knows bits m c pc
      → ((k : Kind) (p : ℕ) → owned pc ≡ some (k, p) → p < m.claims)
      → Effect bits c m pc m' pc'
  Move-Effect (load_prod {r = r}) kn mine = quiet _ _ refl (omega arith)
  Move-Effect (matches {p = p} h) kn mine = quiet _ _ refl (
    kn,
    λ e.
        let e' : p ≡ m.claims = e in
        omega (arith, room_to_claim (subst (λ x. (node_at bits m x).sequence ≡ x) e' h)),
  )
  Move-Effect (differs h) kn mine = quiet _ _ refl kn
  Move-Effect (fall h) kn mine = quiet _ _ refl (kn, λ e. omega arith)
  Move-Effect (claim {r = r} {p = p} e) kn mine =
      let last : m.claims ≡ p = omega (arith, produced) in
      subst
        (λ x.
          Effect bits c m (exchanging r p) (record m { producer_pos = x; claims = m.claims + 1 })
            (owning fresh r p))
        {x = m.claims + 1} {y = word (p + 1)} (omega arith)
        (subst
          (λ x.
            Effect bits c m (exchanging r p)
              (record m { producer_pos = m.claims + 1; claims = m.claims + 1 }) (owning fresh r x))
          last (claims r (omega (arith, kn.1 (omega arith)))))
  Move-Effect scan_from kn mine = quiet _ _ refl behind
  Move-Effect (peek lt e h) kn mine = quiet _ _ refl (kn, lt)
  Move-Effect (not_pending lt e h) kn mine = quiet _ _ refl kn
  Move-Effect (already_high h) kn mine = quiet _ _ refl kn.0
  Move-Effect (lower h) kn mine = quiet _ _ refl kn
  Move-Effect (reserve {r = r} {prod = prod} {cons = cons} {i = i} e) kn mine =
      let p = scanned cons i in
      let mine' = pending_position p (omega (arith, kn.0, kn.1)) (e ∙ omega (arith, kn.0, kn.1)) in
      subst
        (λ x.
          Effect bits c m (reserving r prod cons i) (set_sequence bits m p x) (held r prod cons i))
        {x = p + 1 + 2 * 2 ^ bits} {y = word (p + 1 + evict_offset bits)} (omega arith)
        (reserves r prod cons i p refl (e ∙ omega arith) (mine'.0, mine'.1, kn.0))
  Move-Effect (reserve_fails h) kn mine = quiet _ _ refl kn.0
  Move-Effect (became_high h) kn mine = quiet _ _ refl kn
  Move-Effect (restore {r = r} {prod = prod} {cons = cons} {i = i}) kn mine =
      let p = scanned cons i in
      subst
        (λ x.
          Effect bits c m (restoring r prod cons i) (set_sequence bits m p x)
            (scanning r prod cons (i + 1)))
        {x = p + 1} {y = word (p + 1)} (omega (arith, mine evicting p refl))
        (ends evicting p m.stored refl refl kn.1 (λ q ne. refl) kn.0)
  Move-Effect (confirm h) kn mine = quiet _ _ refl tt
  Move-Effect fetch_id kn mine = quiet _ _ refl tt
  Move-Effect (write_header {k = k} {p = p}) kn mine = writes k p _ refl refl refl (ground arith)
  Move-Effect (write_payload {k = k} {p = p}) kn mine =
      writes k p _ refl refl refl (ground (arith, kn))
  Move-Effect (write_priority {k = k} {p = p}) kn mine =
      writes k p _ refl refl refl (ground (arith, kn))
  Move-Effect (publish {k = k} {e = e} {p = p}) kn mine =
      subst
        (λ x.
          Effect bits c m (writing k marked e p)
            (record (set_sequence bits m p x) { stored = update m.stored p (some e) }) idle)
        {x = p + 1} {y = word (p + 1)} (omega (arith, mine k p refl))
        (ends k p (update m.stored p (some e)) refl refl (ground (arith, kn)) (λ q ne. ground arith)
          tt)
  Move-Effect mv kn mine = quiet _ _ refl tt

  -- The same of the thread `i`, where it is.
  pub Move-Effect_at :
      (i : ℕ) {m' : Shared A} {pc' : Pc A}
      → Move bits m (pcs i) m' pc'
      → Effect bits c m (pcs i) m' pc'
  Move-Effect_at i mv = Move-Effect mv (knows i) (λ k p e. let (from, to, s) = owns i p k e in to)
