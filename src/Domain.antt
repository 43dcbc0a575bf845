-- ===== src/Domain.antt =====
-- internal/domain/types.go: the value types that the packages share. A time is the number of
-- nanoseconds since Go's zero time, so 0 is the zero time; a duration is a number of nanoseconds.
-- Identifiers are only compared, so an int64 identifier is a natural number.
use gh_runner_scaler.Prelude.{ℕ, Bool, true, false, List, nat_eq, Text, text_eq}

pub data ContainerStatus : Type 0 where
  unknown running stopped : ContainerStatus

abbrev pub status_beq : ContainerStatus → ContainerStatus → Bool
status_beq ContainerStatus.unknown ContainerStatus.unknown = true
status_beq ContainerStatus.running ContainerStatus.running = true
status_beq ContainerStatus.stopped ContainerStatus.stopped = true
status_beq _ _ = false

pub record Container : Type 0 where
  pub name : Text
  pub status : ContainerStatus

pub record Runner : Type 0 where
  pub id : ℕ
  pub name : Text
  pub status : Text
  pub busy : Bool
  pub labels : List Text
  pub is_auto : Bool

pub record RunnerSnapshot : Type 0 where
  pub total : ℕ
  pub busy : ℕ
  pub idle : ℕ
  pub online : ℕ
  pub offline : ℕ
  pub auto : ℕ
  pub permanent : ℕ
  pub runners : List Runner

pub record QueuedJob : Type 0 where
  pub id : ℕ
  pub repo : Text
  pub labels : List Text
  pub queued_at : ℕ

pub record CapacityDemand : Type 0 where
  pub queued_jobs : ℕ
  pub oldest_age : ℕ

pub data WebhookEventType : Type 0 where
  event_unknown event_job_queued event_job_in_progress : WebhookEventType
  event_job_completed event_push : WebhookEventType

pub record WebhookEvent : Type 0 where
  pub kind : WebhookEventType
  pub event_type : Text
  pub action : Text
  pub repo : Text
  pub ref : Text
  pub default_branch : Text
  pub branch : Text
  pub commit : Text
  pub workflow : Text
  pub job : Text
  pub job_id : ℕ
  pub runner : Text
  pub status : Text
  pub conclusion : Text
  pub run_id : ℕ
  pub run_attempt : ℕ
  pub detail : Text
  pub labels : List Text
