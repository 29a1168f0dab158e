-- ===== src/Hotel/Errors.antt =====
-- The message keys that the hotel store throws (modules/hotel-store/services).
pub data Code : Type 0 where
  movement_lines_required quantity_invalid movement_source_required movement_target_required : Code
  movement_source_not_allowed movement_target_not_allowed movement_same_warehouse : Code
  room_required movement_reason_required stock_insufficient transfer_same_location : Code
  movement_type_not_supported movement_duplicate product_not_found product_inactive : Code
  quantity_not_whole unit_cost_required movement_not_found movement_not_active : Code
  movement_not_cancellable movement_not_pending location_not_in_warehouse : Code
  stocktake_invalid_state stocktake_lines_uncounted count_quantity_invalid : Code
  stocktake_not_found self_approval stocktake_reason_missing warehouse_not_found : Code
  stocktake_open_exists product_thresholds_invalid kit_every_n_days_required : Code
  product_not_kitable task_not_pending task_invalid_state reason_required : Code
  task_not_found task_unassigned insufficient_permissions kit_not_available : Code
  laundry_not_configured inspection_not_pending inspection_exists cart_required : Code
  task_open_exists room_not_found : Code
