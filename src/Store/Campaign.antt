-- ===== src/Store/Campaign.antt =====
-- store/campaign.go and store/outbox.go: the campaign and the outbox event. The counts of
-- `ByStatus` are a function, 0 where the map has no entry; a JSON payload is its text.
use sendplane.Common.{ℕ, String}
use sendplane.Store.Enums.{CampaignStatus, DeliveryStatus}
use sendplane.Store.Time.{Time}

pub record CampaignStats : Type 0 where
  pub by_status : DeliveryStatus → ℕ
  pub unique_opens : ℕ
  pub unique_clicks : ℕ
  pub unsubscribed : ℕ
  pub unsubscribe_clicked : ℕ
  pub computed_at : Time

pub record Campaign : Type 0 where
  pub id : String
  pub tenant_id : String
  pub name : String
  pub template_id : String
  pub version_id : String
  pub sender_id : String
  pub default_locale : String
  pub vars : String
  pub tenant_vars : String
  pub status : CampaignStatus
  pub schedule_at : Time
  pub started_at : Time
  pub completed_at : Time
  pub stats : CampaignStats
  pub version : ℕ
  pub created_at : Time
  pub updated_at : Time

pub data OutboxStatus : Type 0 where
  pending delivered failed : OutboxStatus

pub record OutboxEvent : Type 0 where
  pub id : String
  pub tenant_id : String
  pub kind : String
  pub payload : String
  pub status : OutboxStatus
  pub attempts : ℕ
  pub next_attempt_at : Time
  pub lease_owner : String
  pub lease_until : Time
  pub last_error : String
  pub created_at : Time
  pub delivered_at : Time
