-- ===== src/Database/Documents.antt =====
-- More entities: deliveries, purchase orders with the invoices for them, the tasks of approval, and
-- the payments at the gateway. Texts that are only shown are left out.
use haroti_lpg_management.Common.Enums.{
  UserRole, DeliveryStatus, PaymentMethod, PurchaseOrderStatus, SupplierInvoiceStatus,
  ThreeWayMatchStatus, ApprovalTaskStatus, WorkflowEntityType, PaycMeterStatus, PaycCreditTxnType,
  SettlementStatus, CylinderMovementType, WorkOrderType, WorkOrderStatus,
}
use haroti_lpg_management.Prelude.{ℤ, ℕ, Bool, Option, List}

pub record Delivery : Type 0 where
  pub supplier_id : ℕ
  pub station_id : ℕ
  pub quantity_ordered_kg : ℤ
  pub quantity_dispatched_kg : ℤ
  pub quantity_received_kg : ℤ
  pub buying_price_per_kg : ℤ
  pub transport_cost : ℤ
  pub status : DeliveryStatus
  pub approved_by_id : Option ℕ
  pub created_by_id : ℕ

pub data AllocationStatus : Type 0 where
  planned dispatched delivered verified : AllocationStatus

pub record DeliveryAllocation : Type 0 where
  pub bulk_delivery_id : ℕ
  pub station_id : ℕ
  pub allocated_kg : ℤ
  pub status : AllocationStatus

pub record Supplier : Type 0 where
  pub is_active : Bool

pub record PurchaseOrderLine : Type 0 where
  pub product_id : Option ℕ
  pub quantity : ℕ
  pub unit_cost : ℤ
  pub landed_unit_cost : ℤ
  pub line_total : ℤ
  pub quantity_received : ℕ

pub record PurchaseOrder : Type 0 where
  pub supplier_id : ℕ
  pub destination_station_id : Option ℕ
  pub status : PurchaseOrderStatus
  pub freight_cost : ℤ
  pub customs_duty : ℤ
  pub clearing_fees : ℤ
  pub total_amount : ℤ
  pub created_by_id : ℕ
  pub approved_by_id : Option ℕ
  pub lines : List PurchaseOrderLine

pub record SupplierInvoice : Type 0 where
  pub invoice_number : ℕ
  pub supplier_id : ℕ
  pub purchase_order_id : Option ℕ
  pub amount : ℤ
  pub tax_amount : ℤ
  pub status : SupplierInvoiceStatus
  pub match_status : ThreeWayMatchStatus
  pub variance_amount : Option ℤ

pub record WorkflowStep : Type 0 where
  pub step_order : ℕ
  pub approver_role : UserRole
  pub escalation_hours : ℕ
  pub fallback_role : Option UserRole

pub record WorkflowDefinition : Type 0 where
  pub entity_type : WorkflowEntityType
  pub min_amount : ℤ
  pub is_active : Bool
  pub steps : List WorkflowStep

pub record ApprovalTask : Type 0 where
  pub subject_entity_type : WorkflowEntityType
  pub subject_entity_id : ℕ
  pub amount : ℤ
  pub status : ApprovalTaskStatus
  pub current_step : ℕ
  pub assigned_role : UserRole
  pub due_at : ℕ
  pub requester_id : ℕ
  pub resolved_at : Option ℕ
  pub resolved_by_id : Option ℕ

pub record CashDeposit : Type 0 where
  pub station_id : ℕ
  pub amount : ℤ
  pub shift_id : Option ℕ
  pub created_by_id : ℕ

pub data PaychanguTransactionStatus : Type 0 where
  pending processing completed failed cancelled expired : PaychanguTransactionStatus

pub data PaychanguPaymentMethod : Type 0 where
  airtel_money tnm_mpamba card bank_transfer : PaychanguPaymentMethod

pub record PaychanguTransaction : Type 0 where
  pub transaction_ref : ℕ
  pub payment_method : PaychanguPaymentMethod
  pub amount : ℤ
  pub status : PaychanguTransactionStatus
  pub completed_at : Option ℕ
  pub sale_id : Option ℕ
  pub payc_meter_id : Option ℕ

-- The events of the gateway that the code knows, and the others.
pub data WebhookEvent : Type 0 where
  api_charge_payment payment_completed other_event : WebhookEvent

-- The words that the gateway reports a payment with; the spelling counts where it is not put in
-- lower case first.
pub data StatusWord : Type 0 where
  pending processing success successful completed failed cancelled expired unknown : StatusWord

pub record RemoteStatus : Type 0 where
  pub word : StatusWord
  pub is_lower_case : Bool

pub record PaychanguWebhook : Type 0 where
  pub event_type : WebhookEvent
  pub transaction_ref : ℕ
  pub payload_status : Option RemoteStatus
  pub processed : Bool
  pub processed_at : Option ℕ
  pub has_error : Bool

pub record PaycMeter : Type 0 where
  pub meter_serial : ℕ
  pub imei : Option ℕ
  pub customer_id : Option ℕ
  pub station_id : Option ℕ
  pub credit_balance_kg : ℤ
  pub deferred_revenue : ℤ
  pub daily_burn_kg : ℤ
  pub status : PaycMeterStatus
  pub last_telemetry_at : Option ℕ
  pub cylinder_serial : Option ℕ
  pub location : Option ℕ
  pub valve_open : Option Bool

pub record PaycCreditTransaction : Type 0 where
  pub meter_id : ℕ
  pub kind : PaycCreditTxnType
  pub amount_mwk : ℤ
  pub credit_kg : ℤ
  pub payment_method : Option PaymentMethod
  pub reference : Option ℕ

pub record PaycTelemetry : Type 0 where
  pub meter_id : ℕ
  pub burn_kg : ℤ
  pub credit_remaining_kg : ℤ
  pub valve_open : Bool

pub record FranchiseAgreement : Type 0 where
  pub station_id : ℕ
  pub royalty_percent : ℕ

pub record FranchiseSettlementLine : Type 0 where
  pub quantity : ℕ
  pub unit_amount : ℤ
  pub line_total : ℤ

pub record FranchiseSettlement : Type 0 where
  pub agreement_id : ℕ
  pub period_start : ℕ
  pub period_end : ℕ
  pub status : SettlementStatus
  pub total_sales : ℤ
  pub royalty_due : ℤ
  pub consignment_due : ℤ
  pub lines : List FranchiseSettlementLine

pub record CylinderMovement : Type 0 where
  pub cylinder_id : ℕ
  pub kind : CylinderMovementType
  pub from_station_id : Option ℕ
  pub to_station_id : Option ℕ
  pub customer_id : Option ℕ
  pub sale_id : Option ℕ

pub record MaintenanceWorkOrder : Type 0 where
  pub kind : WorkOrderType
  pub status : WorkOrderStatus
  pub station_id : Option ℕ
  pub cylinder_id : Option ℕ
  pub due_date : Option ℕ
  pub assigned_to_id : Option ℕ
  pub completed_at : Option ℕ
  pub hydro_certificate_ref : Option ℕ
