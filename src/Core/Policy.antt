-- ===== src/Core/Policy.antt =====
-- include/puppet_master/core/message_policy.h: what a reader's queue promises.
use puppet_master.Base.{ℕ, ◌==◌, if◌then◌else◌}
use puppet_master.Core.Status.{Status, ok_status, error, invalid_argument}

pub data DeliveryGuarantee : Type 0 where
  best_effort reliable : DeliveryGuarantee

pub data RetentionPolicy : Type 0 where
  keep_last keep_all : RetentionPolicy

pub data FreshnessPolicy : Type 0 where
  latest queued : FreshnessPolicy

pub data QueueOverflowPolicy : Type 0 where
  drop_oldest drop_newest block reject : QueueOverflowPolicy

pub record MessagePolicy : Type 0 where
  pub delivery : DeliveryGuarantee
  pub retention : RetentionPolicy
  pub freshness : FreshnessPolicy
  pub overflow : QueueOverflowPolicy
  pub queue_depth : ℕ

-- `MessagePolicy::Validate`.
abbrev pub validate : MessagePolicy → Status
validate p =
    if p.queue_depth == 0
    then error invalid_argument "message policy queue_depth must be greater than zero"
    else ok_status
