-- ===== src/Spend/Errors.antt =====
-- The result codes of src/core/node.ts (`SubmitResult.code` and the refusals of `selectVerified`). The texts beside
-- the codes are for people, and are not modelled.

pub data Code : Type 0 where
  insufficient too_many_inputs verify_tamper verify_unavailable verify_horizon : Code
  verify_unrepresentable ghost_inputs_skipped : Code
  fee_too_low fee_cap bad_fee zero_addr_refused no_outputs bad_outputs bad_request : Code
  nothing_to_consolidate : Code
  submit_duplicate submit_maybe_inflight submit_rejected : Code
