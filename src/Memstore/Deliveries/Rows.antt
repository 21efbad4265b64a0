-- ===== src/Memstore/Deliveries/Rows.antt =====
-- store/memstore/delivery.go: keys, timestamps and filters of delivery rows.
use sendplane.Common.{
  String, Bool, true, false, ◌&&◌, ◌||◌, not, List, [], ◌∷◌, Option, none, some, str_eq,
  if◌then◌else◌,
}
use Prim.Native.String.{◌++◌}
use sendplane.Store.Enums.{DeliveryStatus, ErrorClass, Lane, status_eq, class_eq, lane_eq}
use sendplane.Store.Time.{is_zero, before, truncate_time}
use sendplane.Store.Delivery.{Delivery, DeliveryAttempt, DeliveryFilter}

-- The separator of a unique key is the byte 0.
abbrev pub separator : String
separator = "\0"

unfoldable pub email_key : String → String → String
email_key campaign_id email_norm = campaign_id ++ (separator ++ email_norm)

unfoldable pub truncate_delivery : Delivery → Delivery
truncate_delivery d = record d {
  next_attempt_at = truncate_time d.next_attempt_at;
  lease_until = truncate_time d.lease_until;
  sent_at = truncate_time d.sent_at;
  finished_at = truncate_time d.finished_at;
  first_opened_at = truncate_time d.first_opened_at;
  first_clicked_at = truncate_time d.first_clicked_at;
  unsubscribed_at = truncate_time d.unsubscribed_at;
  created_at = truncate_time d.created_at;
  updated_at = truncate_time d.updated_at;
}

unfoldable pub truncate_attempt : DeliveryAttempt → DeliveryAttempt
truncate_attempt a = record a {
  started_at = truncate_time a.started_at;
  finished_at = truncate_time a.finished_at;
  created_at = truncate_time a.created_at;
}

abbrev pub any_status : List DeliveryStatus → DeliveryStatus → Bool
any_status [] s = false
any_status (x ∷ xs) s = status_eq x s || any_status xs s

abbrev any_class : List ErrorClass → ErrorClass → Bool
any_class [] c = false
any_class (x ∷ xs) c = class_eq x c || any_class xs c

abbrev any_lane : List Lane → Lane → Bool
any_lane [] l = false
any_lane (x ∷ xs) l = lane_eq x l || any_lane xs l

-- An empty list of alternatives matches everything.
unfoldable pub match_status : List DeliveryStatus → DeliveryStatus → Bool
match_status [] s = true
match_status (x ∷ xs) s = any_status (x ∷ xs) s

unfoldable pub match_class : List ErrorClass → ErrorClass → Bool
match_class [] c = true
match_class (x ∷ xs) c = any_class (x ∷ xs) c

unfoldable pub match_lane : List Lane → Lane → Bool
match_lane [] l = true
match_lane (x ∷ xs) l = any_lane (x ∷ xs) l

abbrev campaign_differs : Option String → Delivery → Bool
campaign_differs none d = false
campaign_differs (some id) d = not (str_eq d.campaign_id id)

unfoldable pub match_delivery : DeliveryFilter → Delivery → Bool
match_delivery f d =
    if campaign_differs f.campaign_id d
    then false
    else if not (str_eq f.email_norm "") && not (str_eq d.email_norm f.email_norm)
    then false
    else if not (is_zero f.since) && before d.created_at (truncate_time f.since)
    then false
    else if not (is_zero f.until) && not (before d.created_at (truncate_time f.until))
    then false
    else (match_status f.statuses d.status
        && match_class f.error_classes d.last_error_class
        && match_lane f.lanes d.lane)
