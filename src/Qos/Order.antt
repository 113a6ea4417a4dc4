-- ===== src/Qos/Order.antt =====
-- Which publishers serve which subscribers.
use newosp.Base.{◌≤◌, true, ◌≡◌, refl, arith, ◌↔◌}
use newosp.Qos.{
  ReliabilityPolicy, best_effort, reliable, DurabilityPolicy, volatile, transient_local, QosProfile,
  reliability_code, durability_code, reliability_compatible, durability_compatible, is_compatible,
}

reliability_compatible_iff :
    (p q : ReliabilityPolicy)
    → (reliability_compatible p q ≡ true) ↔ (reliability_code q ≤ reliability_code p)
reliability_compatible_iff reliable reliable = ((λ e. omega arith), (λ e. refl))
reliability_compatible_iff reliable best_effort = ((λ e. omega arith), (λ e. refl))
reliability_compatible_iff best_effort best_effort = ((λ e. omega arith), (λ e. refl))
reliability_compatible_iff best_effort reliable = ((λ e. absurd cc), (λ e. absurd (omega arith)))

durability_compatible_iff :
    (p q : DurabilityPolicy)
    → (durability_compatible p q ≡ true) ↔ (durability_code q ≤ durability_code p)
durability_compatible_iff transient_local transient_local = ((λ e. omega arith), (λ e. refl))
durability_compatible_iff transient_local volatile = ((λ e. omega arith), (λ e. refl))
durability_compatible_iff volatile volatile = ((λ e. omega arith), (λ e. refl))
durability_compatible_iff volatile transient_local = ((λ e. absurd cc), (λ e. absurd (omega arith)))

-- A publisher and a subscriber are compatible exactly if the publisher's reliability and durability are
-- at least the subscriber's, best-effort below reliable and volatile below transient-local.
pub is_compatible_iff :
    (publisher subscriber : QosProfile)
    → (is_compatible publisher subscriber ≡ true) ↔ (
        (reliability_code subscriber.reliability ≤ reliability_code publisher.reliability)
        × (durability_code subscriber.durability ≤ durability_code publisher.durability))
unfolding is_compatible
is_compatible_iff publisher subscriber =
    let rel = reliability_compatible_iff publisher.reliability subscriber.reliability in
    let dur = durability_compatible_iff publisher.durability subscriber.durability in
    ground (arith, rel.0, rel.1, dur.0, dur.1)
