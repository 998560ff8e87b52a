-- ===== src/Asio/Sample.antt =====
-- Concrete error codes, which meet what is documented of the parameter `Errors`, for the tests.
use boost_asio_study.Asio.{ErrorCode, Errors, IsErrors, Completion}
use boost_asio_study.Base.{ℕ, [], refl, arith, Bytes}

abbrev code : ℕ → ℕ → ErrorCode
code value category = record { value = value; category = category }

abbrev pub no_error : ErrorCode
no_error = code 0 0

abbrev pub connection_reset : ErrorCode
connection_reset = code 10054 0

abbrev pub sample : Errors
sample = record {
  success = no_error;
  operation_aborted = code 995 0;
  eof = code 2 1;
  not_found = code 3 1;
  http_category = 7;
}

pub sample-IsErrors : IsErrors sample
sample-IsErrors = record {
  success_value = refl;
  aborted_value = omega arith;
  eof_value = omega arith;
  not_found_value = omega arith;
  aborted_is_not_eof = refl;
}

-- A completion with no error.
abbrev pub received : Bytes → Completion
received bytes = record { ec = no_error; received = bytes }

abbrev pub failed_by : ErrorCode → Completion
failed_by ec = record { ec = ec; received = [] }
