-- ===== src/Qos.antt =====
-- The quality of service profiles, include/osp/qos.hpp.
use newosp.Base.{◌==◌, Bool, true, false, ◌&&◌, ltb, ℕ}
pub mod Order

pub data ReliabilityPolicy : Type 0 where
  best_effort reliable : ReliabilityPolicy

pub data HistoryPolicy : Type 0 where
  keep_last keep_all : HistoryPolicy

pub data DurabilityPolicy : Type 0 where
  volatile transient_local : DurabilityPolicy

pub record QosProfile : Type 0 where
  pub reliability : ReliabilityPolicy
  pub history : HistoryPolicy
  pub durability : DurabilityPolicy
  pub history_depth : ℕ
  pub deadline_ms : ℕ
  pub lifespan_ms : ℕ

-- The values of the enumerators.
abbrev pub reliability_code : ReliabilityPolicy → ℕ
reliability_code best_effort = 0
reliability_code reliable = 1

abbrev pub history_code : HistoryPolicy → ℕ
history_code keep_last = 0
history_code keep_all = 1

abbrev pub durability_code : DurabilityPolicy → ℕ
durability_code volatile = 0
durability_code transient_local = 1

-- The operator == of QosProfile.
unfoldable pub same_profile : QosProfile → QosProfile → Bool
same_profile p q =
    (((((reliability_code p.reliability == reliability_code q.reliability)
            && (history_code p.history == history_code q.history))
          && (durability_code p.durability == durability_code q.durability))
        && (p.history_depth == q.history_depth))
      && (p.deadline_ms == q.deadline_ms))
    && (p.lifespan_ms == q.lifespan_ms)

abbrev pub qos_sensor_data : QosProfile
qos_sensor_data = record {
  reliability = best_effort;
  history = keep_last;
  durability = volatile;
  history_depth = 1;
  deadline_ms = 0;
  lifespan_ms = 0;
}

abbrev pub qos_control_command : QosProfile
qos_control_command = record {
  reliability = reliable;
  history = keep_all;
  durability = volatile;
  history_depth = 0;
  deadline_ms = 100;
  lifespan_ms = 0;
}

abbrev pub qos_system_default : QosProfile
qos_system_default = record {
  reliability = best_effort;
  history = keep_last;
  durability = volatile;
  history_depth = 10;
  deadline_ms = 0;
  lifespan_ms = 0;
}

abbrev pub qos_reliable_sensor : QosProfile
qos_reliable_sensor = record {
  reliability = reliable;
  history = keep_last;
  durability = volatile;
  history_depth = 5;
  deadline_ms = 0;
  lifespan_ms = 1000;
}

-- The two tests of IsCompatible.
abbrev pub reliability_compatible : ReliabilityPolicy → ReliabilityPolicy → Bool
reliability_compatible reliable wanted = true
reliability_compatible best_effort best_effort = true
reliability_compatible best_effort reliable = false

abbrev pub durability_compatible : DurabilityPolicy → DurabilityPolicy → Bool
durability_compatible transient_local wanted = true
durability_compatible volatile volatile = true
durability_compatible volatile transient_local = false

-- IsCompatible, of a publisher's profile and a subscriber's.
unfoldable pub is_compatible : QosProfile → QosProfile → Bool
is_compatible publisher subscriber =
    reliability_compatible publisher.reliability subscriber.reliability
    && durability_compatible publisher.durability subscriber.durability

unfoldable pub is_deadline_expired : QosProfile → ℕ → Bool
is_deadline_expired profile elapsed_ms =
    ltb 0 profile.deadline_ms && ltb profile.deadline_ms elapsed_ms

unfoldable pub is_lifespan_expired : QosProfile → ℕ → Bool
is_lifespan_expired profile elapsed_ms =
    ltb 0 profile.lifespan_ms && ltb profile.lifespan_ms elapsed_ms
