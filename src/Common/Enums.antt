-- ===== src/Common/Enums.antt =====
-- backend/src/common/enums.ts: the enumerations that the modelled services use, with the tests
-- `x === X` that they make.

pub data UserRole : Type 0 where
  system_admin director operations_manager finance_manager station_manager attendant : UserRole
  storekeeper safety_officer auditor : UserRole

pub data StockMovementType : Type 0 where
  opening_stock supplier_delivery transfer_in transfer_out refill_sale : StockMovementType
  internal_consumption leakage_loss testing_calibration stock_adjustment : StockMovementType
  closing_stock : StockMovementType

pub data DeliveryStatus : Type 0 where
  purchase_order supplier_dispatch station_receipt quantity_verification : DeliveryStatus
  manager_approval inventory_updated accounts_payable cancelled : DeliveryStatus

pub data PaymentMethod : Type 0 where
  cash airtel_money tnm_mpamba bank_transfer card customer_account paychangu mixed : PaymentMethod

pub data SaleStatus : Type 0 where
  completed voided refunded pending_approval pending_payment : SaleStatus

pub data CylinderStatus : Type 0 where
  available filled empty with_customer in_transit under_inspection damaged : CylinderStatus
  condemned lost : CylinderStatus

pub data TransferStatus : Type 0 where
  requested source_approved dispatched in_transit received confirmed cancelled : TransferStatus

pub data TransferItemType : Type 0 where
  lpg cylinder accessory : TransferItemType

pub data ShiftStatus : Type 0 where
  is_open is_closed pending_approval : ShiftStatus

pub data ExpenseStatus : Type 0 where
  draft submitted approved rejected : ExpenseStatus

pub data CommercialStream : Type 0 where
  bulk_wholesale retail_forecourt franchise payc accessories : CommercialStream

pub data SalesChannel : Type 0 where
  retail_list wholesale franchise_purchase agent_commission : SalesChannel

pub data StockOwnership : Type 0 where
  owned consignment : StockOwnership

pub data PurchaseOrderStatus : Type 0 where
  draft pending_approval approved ordered partially_received received : PurchaseOrderStatus
  paid cancelled : PurchaseOrderStatus

pub data RequisitionStatus : Type 0 where
  draft submitted gm_approved ready_to_pay paid rejected cancelled : RequisitionStatus

pub data JournalEventType : Type 0 where
  accessory_grn accessory_transfer accessory_consignment : JournalEventType
  accessory_retail_sale accessory_cogs franchise_settlement : JournalEventType
  franchise_consignment bundle_sale lpg_delivery lpg_refill_sale lpg_cogs : JournalEventType
  payc_burn_revenue payc_credit_topup capital_expenditure agent_commission : JournalEventType
  station_expense requisition_payment customer_credit_sale customer_payment : JournalEventType
  supplier_payment sale_reversal : JournalEventType

pub data TankReadingContext : Type 0 where
  shift_open shift_close delivery transfer manual : TankReadingContext

pub data JournalPostingStatus : Type 0 where
  posted reversed : JournalPostingStatus

pub data FiscalPeriodStatus : Type 0 where
  is_open soft_closed hard_closed : FiscalPeriodStatus

pub data LoyaltyTxnType : Type 0 where
  earn redeem adjust : LoyaltyTxnType

pub data SupplierInvoiceStatus : Type 0 where
  draft registered matched variance paid : SupplierInvoiceStatus

pub data ThreeWayMatchStatus : Type 0 where
  pending matched variance approved : ThreeWayMatchStatus

pub data ApprovalTaskStatus : Type 0 where
  pending approved rejected escalated expired : ApprovalTaskStatus

pub data WorkflowEntityType : Type 0 where
  expense requisition purchase_order discount stock_adjustment loss_case : WorkflowEntityType

pub data PaycMeterStatus : Type 0 where
  active low_credit valve_closed offline maintenance : PaycMeterStatus

pub data PaycCreditTxnType : Type 0 where
  topup burn refund adjustment : PaycCreditTxnType

pub data SettlementStatus : Type 0 where
  draft pending_invoice invoiced paid : SettlementStatus

pub data CylinderMovementType : Type 0 where
  issue returned swap_in swap_out transfer sale_attach : CylinderMovementType

pub data WorkOrderType : Type 0 where
  cylinder_hydro_test payc_meter_service station_equipment vehicle_fleet : WorkOrderType

pub data WorkOrderStatus : Type 0 where
  is_open in_progress awaiting_parts completed cancelled : WorkOrderStatus
