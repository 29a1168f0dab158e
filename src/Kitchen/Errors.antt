-- ===== src/Kitchen/Errors.antt =====
-- The message keys that the kitchen store throws (modules/kitchen/services).

pub data KitchenCode : Type 0 where
  waste_reason_required invalid_movement durable_not_consumable lot_expired : KitchenCode
  insufficient_stock kitchen_item_not_found kitchen_item_inactive kitchen_lot_not_found :
      KitchenCode
  kitchen_movement_not_found movement_not_reversible movement_already_reversed : KitchenCode
  idempotency_key_reused concurrent_update supplier_not_found expiry_required : KitchenCode
  lot_code_taken purchase_order_not_found purchase_order_not_receivable policy_denied : KitchenCode
  purchase_order_line_not_found purchase_order_over_receipt purchase_order_invalid_state :
      KitchenCode
  purchase_order_not_cancellable purchase_order_has_receipts purchase_order_empty : KitchenCode
  purchase_order_not_editable supplier_inactive supplier_item_not_found : KitchenCode
  cost_center_not_found cost_center_inactive tax_rate_not_found tax_rate_inactive : KitchenCode
  file_required file_type_pdf order_recipients order_email_disabled order_email_failed : KitchenCode
