-- ===== src/Errors.antt =====
-- src/error.rs: which errno a client sees. Messages are left out: no operation reads them.
pub mod Transient
use hf_mount.Base.{ℕ, Bool, true, false, ◌||◌, Option, none, some, nat_beq, if◌then◌else◌}

-- What the HTTP library says of a transport error.
pub record HttpError : Type 0 where
  pub is_timeout : Bool
  pub is_connect : Bool

-- `hub status retry_after`; the other variants carry a text or an error of a library.
pub data Error : Type 0 where
  hub : Option ℕ → Option ℕ → Error
  xet io json : Error
  http : HttpError → Error

-- The constants of libc that `to_errno` returns.
pub data Errno : Type 0 where
  enospc eacces eagain eio : Errno

abbrev pub hub_status : ℕ → Error
hub_status code = hub (some code) none

unfoldable pub retry_after : Error → Option ℕ
retry_after (hub code wait) = wait
retry_after _ = none

unfoldable pub status : Error → Option ℕ
status (hub code wait) = code
status _ = none

unfoldable pub is_retryable_status : ℕ → Bool
is_retryable_status code =
    nat_beq code 408
    || (nat_beq code 429
        || (nat_beq code 500 || (nat_beq code 502 || (nat_beq code 503 || nat_beq code 504))))

unfoldable pub is_transient_http : HttpError → Bool
is_transient_http e = e.is_timeout || e.is_connect

unfoldable pub is_transient : Error → Bool
is_transient (http e) = is_transient_http e
is_transient e = elim (status e) [ none ↦ false | some code ↦ is_retryable_status code ]

unfoldable pub to_errno : Error → Errno
to_errno e =
    let otherwise = if is_transient e then eagain else eio in
    elim (status e) [
      | none ↦ otherwise
      | some code ↦
          if nat_beq code 413 || nat_beq code 507
          then enospc
          else if nat_beq code 403
          then eacces
          else otherwise
    ]
