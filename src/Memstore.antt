-- ===== src/Memstore.antt =====
-- store/memstore: the in-memory reference implementation of the repositories. A tenant's data is
-- a record of maps; an operation takes the data, and the reading of the provider's clock where it
-- stamps a row, and returns an error or the new data with its result. Each operation runs under
-- the provider's mutex, so it is one step.
pub mod Deliveries
pub mod Tenant
pub mod Campaigns
pub mod Outbox
pub mod Locks
pub mod Aged
pub mod Dropped
pub mod Suppressions
pub mod Events
use sendplane.Common.{ℕ, suc, ◌≡◌, String, Bool, Option, Map, if◌then◌else◌, str_eq}
use sendplane.Store.Enums.{DeliveryStatus}
use sendplane.Store.Errors.{Result, StoreError, refuse_if}
use sendplane.Store.Time.{Time, truncate_time}
use sendplane.Store.Delivery.{Delivery, DeliveryAttempt}

-- The part of `tenantData` and `Provider` that the delivery repository works on. `new_id` stands
-- for the UUID library: its n-th identifier, of which `issued` are used up.
pub record TenantData : Type 0 where
  pub closed : Bool
  pub tenant : String
  pub new_id : ℕ → String
  pub issued : ℕ
  pub deliveries : Map Delivery
  pub campaign_emails : Map String
  pub attempts : Map DeliveryAttempt

-- Provider.check
abbrev pub check : TenantData → Result (Unit {0})
check s = refuse_if s.closed StoreError.err_closed

-- store.NewID: the next identifier, and the data with it used up.
abbrev pub next_id : TenantData → String
next_id s = s.new_id s.issued

-- `if id == "" { id = store.NewID() }`
abbrev pub id_or_new : TenantData → String → String
id_or_new s id = if str_eq id "" then next_id s else id

abbrev pub issued_for : TenantData → String → ℕ
issued_for s id = if str_eq id "" then suc s.issued else s.issued
