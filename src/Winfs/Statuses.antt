-- ===== src/Winfs/Statuses.antt =====
-- The status codes of src/winfs/ntstatus.rs, as unsigned numbers of 32 bits: a code is negative as an
-- `i32` if it has the top bit. The constants of libc are taken as different numbers, one for each name.
use hf_mount.Base.{ℕ, ◌≡◌, ◌↔◌, refl, ap, Bool, true, false, arith, ltb}
use hf_mount.Errors
use hf_mount.Errors.{Error, to_errno, is_transient}
use hf_mount.Errors.Transient.{to_errno-transient}

abbrev pub status_success : ℕ
status_success = 0

abbrev pub status_object_name_not_found : ℕ
status_object_name_not_found = 3221225524

abbrev pub status_not_a_directory : ℕ
status_not_a_directory = 3221225731

abbrev pub status_file_is_a_directory : ℕ
status_file_is_a_directory = 3221225658

abbrev pub status_object_name_collision : ℕ
status_object_name_collision = 3221225525

abbrev pub status_directory_not_empty : ℕ
status_directory_not_empty = 3221225729

abbrev pub status_media_write_protected : ℕ
status_media_write_protected = 3221225634

abbrev pub status_access_denied : ℕ
status_access_denied = 3221225506

abbrev pub status_disk_full : ℕ
status_disk_full = 3221225599

abbrev pub status_file_too_large : ℕ
status_file_too_large = 3221227780

abbrev pub status_network_busy : ℕ
status_network_busy = 3221225663

abbrev pub status_io_timeout : ℕ
status_io_timeout = 3221225653

abbrev pub status_invalid_handle : ℕ
status_invalid_handle = 3221225480

abbrev pub status_invalid_parameter : ℕ
status_invalid_parameter = 3221225485

abbrev pub status_object_name_invalid : ℕ
status_object_name_invalid = 3221225523

abbrev pub status_not_supported : ℕ
status_not_supported = 3221225659

abbrev pub status_not_implemented : ℕ
status_not_implemented = 3221225474

abbrev pub status_not_same_device : ℕ
status_not_same_device = 3221225684

abbrev pub status_sharing_violation : ℕ
status_sharing_violation = 3221225539

abbrev pub status_insufficient_resources : ℕ
status_insufficient_resources = 3221225626

abbrev pub status_cancelled : ℕ
status_cancelled = 3221225760

abbrev pub status_unexpected_io_error : ℕ
status_unexpected_io_error = 3221225705

-- The constants that `errno_to_ntstatus` names, `EIO`, and every other errno.
pub data Errno : Type 0 where
  enoent enotdir eisdir eexist enotempty erofs eacces eperm : Errno
  enospc efbig eagain etimedout ebadf einval enametoolong enotsup : Errno
  enosys exdev ebusy enomem ecanceled : Errno
  eio : Errno
  other_errno : ℕ → Errno

unfoldable pub nt_success : ℕ → Bool
nt_success status = ltb status 2147483648

unfoldable pub errno_to_ntstatus : Errno → ℕ
errno_to_ntstatus enoent = status_object_name_not_found
errno_to_ntstatus enotdir = status_not_a_directory
errno_to_ntstatus eisdir = status_file_is_a_directory
errno_to_ntstatus eexist = status_object_name_collision
errno_to_ntstatus enotempty = status_directory_not_empty
errno_to_ntstatus erofs = status_media_write_protected
errno_to_ntstatus eacces = status_access_denied
errno_to_ntstatus eperm = status_access_denied
errno_to_ntstatus enospc = status_disk_full
errno_to_ntstatus efbig = status_file_too_large
errno_to_ntstatus eagain = status_network_busy
errno_to_ntstatus etimedout = status_io_timeout
errno_to_ntstatus ebadf = status_invalid_handle
errno_to_ntstatus einval = status_invalid_parameter
errno_to_ntstatus enametoolong = status_object_name_invalid
errno_to_ntstatus enotsup = status_not_supported
errno_to_ntstatus enosys = status_not_implemented
errno_to_ntstatus exdev = status_not_same_device
errno_to_ntstatus ebusy = status_sharing_violation
errno_to_ntstatus enomem = status_insufficient_resources
errno_to_ntstatus ecanceled = status_cancelled
errno_to_ntstatus eio = status_unexpected_io_error
errno_to_ntstatus (other_errno n) = status_unexpected_io_error

-- The constant of libc that src/error.rs returns.
unfoldable pub of_error : Errors.Errno → Errno
of_error Errors.enospc = enospc
of_error Errors.eacces = eacces
of_error Errors.eagain = eagain
of_error Errors.eio = eio

errno_refused : (x : Errno) → nt_success (errno_to_ntstatus x) ≡ false
unfolding nt_success errno_to_ntstatus
errno_refused enoent = refl
errno_refused enotdir = refl
errno_refused eisdir = refl
errno_refused eexist = refl
errno_refused enotempty = refl
errno_refused erofs = refl
errno_refused eacces = refl
errno_refused eperm = refl
errno_refused enospc = refl
errno_refused efbig = refl
errno_refused eagain = refl
errno_refused etimedout = refl
errno_refused ebadf = refl
errno_refused einval = refl
errno_refused enametoolong = refl
errno_refused enotsup = refl
errno_refused enosys = refl
errno_refused exdev = refl
errno_refused ebusy = refl
errno_refused enomem = refl
errno_refused ecanceled = refl
errno_refused eio = refl
errno_refused (other_errno n) = refl

busy_again :
    (x : Errors.Errno) → errno_to_ntstatus (of_error x) ≡ status_network_busy → x ≡ Errors.eagain
unfolding errno_to_ntstatus of_error
busy_again Errors.enospc h = absurd (omega arith)
busy_again Errors.eacces h = absurd (omega arith)
busy_again Errors.eagain h = refl
busy_again Errors.eio h = absurd (omega arith)

-- No error of the Hub or the disk reaches Windows as a success, and Windows is told that the network
-- is busy exactly on the errors that the retry loops count as transient.
pub errno_to_ntstatus-to_errno :
    (e : Error)
    → (nt_success (errno_to_ntstatus (of_error (to_errno e))) ≡ false)
      × ((errno_to_ntstatus (of_error (to_errno e)) ≡ status_network_busy)
          ↔ (is_transient e ≡ true))
unfolding errno_to_ntstatus of_error
errno_to_ntstatus-to_errno e =
    let (there, back) = to_errno-transient e in
    (
      errno_refused (of_error (to_errno e)),
      (
        λ h. there (busy_again (to_errno e) h),
        λ h. ap (λ x. errno_to_ntstatus (of_error x)) (back h),
      ),
    )
