-- ===== src/ImportJobs/Failure.antt =====
-- `safeFailure` of src/import/jobs.ts: what is stored of an error, and whether the job is retried.
use openers_performance_dash.Prelude.{Bool, List, [], ◌∷◌, String, if◌then◌else◌, any}
use openers_performance_dash.Prelude.Text.{matches_i}
use text.Mathlib.Text.{◌==◌ as str_eq}
use Prim.Native.String.{slice}

-- What is thrown: an `ImportConfirmationError` with its code, another `Error` with its message, or
-- something that is no `Error`.
pub data JobError : Type 0 where
  confirmation : String → JobError
  error : String → JobError
  unknown : JobError

pub record JobFailure : Type 0 where
  pub code : String
  pub reason : String
  pub retryable : Bool

abbrev contains : List String → String → Bool
contains xs s = any (λ x. str_eq x s) xs

abbrev pub transient_import_codes : List String
transient_import_codes =
    "deadlock" ∷ "lock_wait_timeout" ∷ "connection_failure" ∷ "worker_interrupted" ∷ []

abbrev invalid_input_codes : List String
invalid_input_codes =
    "invalid_file" ∷ "invalid_reporting_date" ∷ "invalid_status" ∷ "forbidden" ∷ []

-- The regular expression on an error's message.
pub is_transient_message : String → Bool
is_transient_message m =
    any (λ needle. matches_i needle m)
      ("deadlock" ∷ "lock wait" ∷ "connection" ∷ "timeout" ∷ "econn" ∷ "protocol" ∷ [])

pub message_of : JobError → String
message_of (confirmation code) = ""
message_of (error m) = m
message_of unknown = ""

unfoldable pub safe_failure : JobError → JobFailure
unfolding is_transient_message message_of
safe_failure (confirmation code) = record {
  code = slice code 0 80;
  reason =
      if contains invalid_input_codes code
      then "The import could not be processed because its input or state is invalid."
      else "The import could not be processed.";
  retryable = contains transient_import_codes code;
}
safe_failure e =
    let retryable = is_transient_message (message_of e) in
    record {
      code = if retryable then "transient_database_failure" else "processing_failure";
      reason =
          if retryable
          then "Import processing was interrupted and will be retried."
          else "The import could not be processed. Review the file and try again.";
      retryable = retryable;
    }
