-- ===== src/Errors/Transient.antt =====
-- The errno of src/error.rs and the test for transient errors agree.
use hf_mount.Base.{◌≡◌, ◌↔◌, true, none, some, arith}
use hf_mount.Errors.{
  Error, hub, xet, io, json, http, eagain, status, is_retryable_status, is_transient, to_errno,
}

-- A client is told to try again exactly on the errors that the retry loops count as transient: the
-- statuses for space and access are not among the retryable ones.
pub to_errno-transient : (e : Error) → (to_errno e ≡ eagain) ↔ (is_transient e ≡ true)
unfolding to_errno is_transient status is_retryable_status
to_errno-transient (hub none wait) = ground arith
to_errno-transient (hub (some code) wait) = ground arith
to_errno-transient xet = ground arith
to_errno-transient io = ground arith
to_errno-transient json = ground arith
to_errno-transient (http e) = ground arith
