-- ===== src/Asio.antt =====
-- What the programs use of Boost.Asio and Boost.System: error codes, the sides of a shutdown, the
-- exceptions, and the completion of an asynchronous operation. The values of Asio's own error
-- constants are a parameter.
pub mod Sample
use boost_asio_study.Base.{ℕ, Bool, false, not, ◌&&◌, ◌≡◌, ◌≢◌, refl, Bytes, ◌==◌, arith}

-- `boost::system::error_code`: the bits of its `int` value, and its category, by number.
pub record ErrorCode : Type 0 where
  pub value : ℕ
  pub category : ℕ

-- `ec.value() != 0`, the test of every handler
abbrev pub failed : ErrorCode → Bool
failed ec = not (ec.value == 0)

abbrev pub code_eq : ErrorCode → ErrorCode → Bool
code_eq a b = a.value == b.value && a.category == b.category

code_eq_refl : (a : ErrorCode) → code_eq a a ≡ Bool.true
code_eq_refl a = ground arith

-- The constants of `asio::error` that the programs name, `error_code()`, and the category that
-- `http_errors::get_http_errors_category()` registers.
pub record Errors : Type 0 where
  pub success : ErrorCode
  pub operation_aborted : ErrorCode
  pub eof : ErrorCode
  pub not_found : ErrorCode
  pub http_category : ℕ

-- As documented: only `error_code()` is no error, and the named constants are different.
pub record IsErrors (e : Errors) : Type 0 where
  pub success_value : e.success.value ≡ 0
  pub aborted_value : e.operation_aborted.value ≢ 0
  pub eof_value : e.eof.value ≢ 0
  pub not_found_value : e.not_found.value ≢ 0
  pub aborted_is_not_eof : code_eq e.operation_aborted e.eof ≡ false

-- `socket::shutdown_type`
pub data Side : Type 0 where
  shutdown_receive shutdown_send shutdown_both : Side

-- What leaves a handler as an exception or stops the process, and so ends `io_service::run`.
pub data Fault : Type 0 where
  system_error : ErrorCode → Fault
  out_of_range : Fault  -- `std::map::at`
  null_write : Fault  -- a write of at least one byte through a null pointer
  assertion : Fault  -- a failed `assert`
  endless_loop : Fault  -- a loop that never ends

-- What `async_read_until` and the other operations hand to their handler: the error code, and the
-- bytes that the operation appended to the `streambuf`.
pub record Completion : Type 0 where
  pub ec : ErrorCode
  pub received : Bytes
