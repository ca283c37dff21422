-- ===== src/Error.antt =====
-- kernel/error.hpp: the error codes, and a value beside an error.
pub data Error : Type 0 where
  success full empty no_enough_memory index_out_of_range host_controller_not_halted : Error
  invalid_slot_id port_not_connected invalid_endpoint_number transfer_ring_not_set : Error
  already_allocated not_implemented invalid_descriptor buffer_too_small unknown_device : Error
  no_corresponding_setup_stage transfer_failed invalid_phase unknown_xhci_speed_id no_waiter : Error
  no_pci_msi unknown_pixel_format no_such_task invalid_format frame_too_small invalid_file : Error
  is_directory no_such_entry not_os_server_running last_of_code : Error

-- An `Error` holds where it was made besides; nothing reads that but the log.
pub record WithError {ℓ} (A : Type ℓ) : Type ℓ where
  pub value : A
  pub error : Error
