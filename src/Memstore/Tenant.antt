-- ===== src/Memstore/Tenant.antt =====
-- store/memstore: what the control plane works on of a tenant: the delivery data, and the rows of
-- campaigns, senders, templates and the outbox.
use sendplane.Common.{String, Map}
use sendplane.Memstore.{TenantData}
use sendplane.Store.Campaign.{Campaign, OutboxEvent}

-- Of a template the control plane reads the published version, of a sender the transport it
-- uses.
pub record Tenant : Type 0 where
  pub base : TenantData
  pub campaigns : Map Campaign
  pub senders : Map String
  pub templates : Map String
  pub outbox : Map OutboxEvent
