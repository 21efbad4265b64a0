-- ===== src/Tests/Data.antt =====
-- A tenant with a few deliveries, and the requests of a worker.
use sendplane.Common.{
  ℕ, String, ◌≡◌, refl, ap, subst, false, List, [], ◌∷◌, some, arith, pos, lookup, insert, adjust,
  adjust_all, matching, sort, insert_sorted, limited,
}
use sendplane.Common.{true, str_eq, eq_iff}
use sendplane.Store.Enums.{DeliveryStatus, Lane, ErrorClass}
use sendplane.Store.Time.{Time, truncate_time}
use sendplane.Store.Delivery.{Delivery, ClaimRequest}
use sendplane.Memstore.{TenantData}
use sendplane.Store.Errors.{ok}
use sendplane.Memstore.Deliveries.Rows.{truncate_delivery, email_key}
use sendplane.Memstore.Deliveries.Insert.{
  insert_batch, lacks_email, insert_rows, insert_row, stored, duplicate,
}
use sendplane.Memstore.Deliveries.Claim.{
  claim, claimed, candidate, claimable_status, claim_less, lease,
}
use sendplane.Memstore.Deliveries.Valid.{IsValid}
use sendplane.Memstore.Deliveries.History.{
  Op, inserts, claims, run, run-IsValid, step, settle, step-IsValid,
}

abbrev pub delivery : String → String → ℕ → Delivery
delivery id email priority = record {
  id = id;
  tenant_id = "t1";
  campaign_id = "c1";
  version_id = "v1";
  sender_id = "s1";
  lane = Lane.bulk;
  priority = pos priority;
  status = DeliveryStatus.queued;
  email = email;
  email_norm = email;
  name = "";
  locale = "";
  vars = "{}";
  tenant_vars = "{}";
  unsubscribe_url = "";
  headers = [];
  attempt_count = 0;
  retry_gen = 0;
  next_attempt_at = 1_000_000;
  lease_owner = "";
  lease_until = 0;
  last_error_class = ErrorClass.none;
  last_smtp_code = 0;
  last_error = "";
  message_id = "";
  sent_at = 0;
  finished_at = 0;
  first_opened_at = 0;
  first_clicked_at = 0;
  unsubscribed_at = 0;
  created_at = 1_000_000;
  updated_at = 0;
}

abbrev pub empty : TenantData
empty = record {
  closed = false;
  tenant = "t1";
  new_id = λ n. "new";
  issued = 0;
  deliveries = [];
  campaign_emails = [];
  attempts = [];
}

abbrev pub batch : List Delivery
batch = delivery "d1" "a@x.org" 0 ∷ delivery "d2" "b@x.org" 5 ∷ delivery "d3" "c@x.org" 0 ∷ []

abbrev pub history : List Op
history = inserts batch 2_000_000 ∷ []

abbrev pub claim_by : String → ℕ → Time → ClaimRequest
claim_by worker limit now = record {
  lane = Lane.bulk;
  campaign_ids = some ("c1" ∷ []);
  limit = limit;
  lease_for = 60_000_000;
  worker_id = worker;
  now = now;
}

pub empty-IsValid : IsValid empty
unfolding lookup
empty-IsValid = record {
  rows = λ k. omega arith;
  ids = λ j d h. absurd (ground arith);
  indexed = λ j d h c. absurd (ground arith);
}

-- The row of a delivery as the insertion stores it, and the key of its address in the campaign.
abbrev pub row : String → String → ℕ → Delivery
row id email priority = record (delivery id email priority) { updated_at = 2_000_000 }

-- The tenant after the insertion of the batch.
abbrev pub loaded : TenantData
loaded = record empty {
  deliveries =
      ("d1", row "d1" "a@x.org" 0)
      ∷ ("d2", row "d2" "b@x.org" 5)
      ∷ ("d3", row "d3" "c@x.org" 0)
      ∷ [];
  campaign_emails = ("c1\0a@x.org", "d1") ∷ ("c1\0b@x.org", "d2") ∷ ("c1\0c@x.org", "d3") ∷ [];
}

pub inserted : insert_batch batch 2_000_000 empty ≡ ok (loaded, 3)
unfolding insert_batch lacks_email insert_rows insert_row stored duplicate truncate_time
    truncate_delivery insert lookup email_key
inserted = refl

ran : run history empty ≡ loaded
unfolding run step
ran = ap (settle empty) inserted

pub loaded-IsValid : IsValid loaded
loaded-IsValid = subst IsValid ran (run-IsValid history empty empty-IsValid)

-- The row of the delivery that is served first, leased to a worker.
abbrev pub leased_row : String → Delivery
leased_row worker = record (row "d2" "b@x.org" 5) {
  status = DeliveryStatus.leased;
  lease_owner = worker;
  lease_until = 63_000_000;
  updated_at = 3_000_000;
}

-- The tenant with another row of the second delivery.
abbrev pub with_second : Delivery → TenantData
with_second d = record loaded {
  deliveries = ("d1", row "d1" "a@x.org" 0) ∷ ("d2", d) ∷ ("d3", row "d3" "c@x.org" 0) ∷ [];
}

pub claimed_second :
    claim (claim_by "w1" 1 3_000_000) loaded
    ≡ ok (with_second (leased_row "w1"), leased_row "w1" ∷ [])
unfolding claim claimed candidate claimable_status claim_less lease truncate_time truncate_delivery
    matching sort insert_sorted limited adjust_all adjust lookup
claimed_second = refl

pub leased-IsValid : IsValid (with_second (leased_row "w1"))
unfolding step
leased-IsValid =
    subst IsValid (ap (settle loaded) claimed_second)
      (step-IsValid (claims (claim_by "w1" 1 3_000_000)) loaded loaded-IsValid)

-- Two keys that are not equal do not both equal a third.
pub apart : (a b k : String) → str_eq b a ≡ false → str_eq a k ≡ true → str_eq b k ≡ false
apart a b k h e = subst (λ (x : String). str_eq b x ≡ false) ((eq_iff a k).0 e) h
