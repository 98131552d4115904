-- ===== src/Sales.antt =====
-- backend/src/sales/sales.service.ts, with backend/src/sales/dto/create-sale.dto.ts and what a
-- sale takes from backend/src/cylinders/cylinders.service.ts and
-- backend/src/franchise/franchise.service.ts.
pub mod Pricing
pub mod Fingerprint
pub mod Finalize
pub mod Create
pub mod Lifecycle
pub mod Summary
pub mod Totals
pub mod Safety
pub mod SafetyFinal
pub mod SafetyCreate
pub mod SafetyOps
pub mod Guards
pub mod Void
pub mod Frame
pub mod Amounts
pub mod Reachable
