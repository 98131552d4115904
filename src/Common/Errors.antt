-- ===== src/Common/Errors.antt =====
-- The exceptions that the services throw, as values. The message texts are named, not copied.

pub data Reason : Type 0 where
  station_not_found insufficient_lpg_stock adjustment_is_zero : Reason
  period_hard_closed entry_not_found entry_already_reversed entry_has_reversal : Reason
  insufficient_accessory_stock bundle_not_found : Reason
  customer_not_found customer_suspended credit_limit_exceeded payment_not_positive : Reason
  shift_not_found shift_not_open shift_of_other_station shift_of_other_attendant : Reason
  shift_already_open shift_already_closed shift_not_pending shift_own_approval : Reason
  role_insufficient tank_not_found : Reason
  same_station transfer_not_found transfer_not_receivable unknown_transfer_item : Reason
  requisition_not_found requisition_total_not_positive requisition_not_submitted : Reason
  requisition_own_approval requisition_not_approved : Reason
  cylinder_not_found cylinder_blocked cylinder_overdue : Reason
  points_not_positive insufficient_points : Reason
  sale_conflict sale_empty weight_not_positive discount_exceeds_subtotal payments_differ : Reason
  customer_required gateway_combined card_number_required card_cvv_required : Reason
  phone_required : Reason
  attendant_not_found sale_not_found sale_not_pending_approval sale_own_approval : Reason
  sale_not_pending_payment sale_not_completed gateway_failed : Reason
  supplier_not_found order_not_found order_not_draft order_not_pending amount_over_limit : Reason
  order_not_approved order_not_ordered destination_required order_not_received : Reason
  duplicate_invoice invoice_not_found invoice_not_linked no_variance invoice_required : Reason
  match_required : Reason
  expense_not_found expense_rejected expense_own_approval : Reason
  delivery_not_found delivery_cannot_advance delivery_not_awaiting : Reason
  task_not_found task_not_pending task_other_role : Reason
  meter_not_found : Reason
  payment_not_found invalid_signature charge_id_missing unsupported_method phone_invalid : Reason
  card_details_required direct_charge_missing : Reason
  agreement_not_found settlement_not_found swapped_not_found work_order_not_found : Reason
  entry_number_taken : Reason

-- The exception classes of NestJS, by HTTP status; an error of the database is an internal one.
pub data Failure : Type 0 where
  bad_request not_found forbidden conflict internal_error : Reason → Failure

pub data Result (A : Type 0) : Type 0 where
  ok : A → Result A
  err : Failure → Result A
