-- ===== src/Executor/Reporting.antt =====
-- `do_execute_task` of executor/src/lib.rs: what is reported about the events of exec/src/lib.rs.
use mathlib.Core.List.{Forall₂}
use funtonic.Base.{ℕ, ◌+◌, ◌≤◌, String, ◌≡◌, none, some, List, [], ◌∷◌, Result, ok, err, All}
use funtonic.Base.HashMap
use funtonic.Crypto.Library.{Bytes, IsSignature, IsMessage, Database}
use funtonic.Crypto.SignedPayload.{
  SignedPayload, Ed25519Key, EncodePayloadError, encode_and_sign, nanos,
}
use funtonic.Crypto.KeyStore.{Keys}
use funtonic.Crypto.KeyStore.File.{file_backend}
use funtonic.Crypto.KeyStore.Store.{decode_payload, max_system_secs}
use funtonic.Crypto.KeyStore.RoundTrip.{decode_payload-encode_and_sign_in_file}
use funtonic.TaskServer.Protocol.{
  ExecutionResult, ping, task_aborted, task_completed, task_output, Output, stdout, stderr,
  TaskExecutionResult,
}
use funtonic.Exec.{LineType, out, error, ExecEvent, started, finished, line_emitted}
use funtonic.Executor.Dispatch.{Client, minute}

unfoldable pub output_of_line : LineType → String → Output
output_of_line out line = stdout line
output_of_line error line = stderr line

unfoldable pub result_of_event : ExecEvent → ExecutionResult
unfolding output_of_line
result_of_event started = ping
result_of_event (finished none) = task_aborted
result_of_event (finished (some return_code)) = task_completed return_code
result_of_event (line_emitted line) = task_output (some (output_of_line line.line_type line.line))

-- An event, with the reading of the clock and the nonce when it is signed.
pub record Sample : Type 0 where
  pub event : ExecEvent
  pub now : ℕ
  pub nonce : ℕ

module _ (C : Client) (task_id client_id : String) (signing_key : Ed25519Key) where
  abbrev pub report_of_event : ExecEvent → TaskExecutionResult
  report_of_event event = record {
    task_id = task_id;
    client_id = client_id;
    execution_result = some (result_of_event event);
  }

  unfoldable pub sign_event : Sample → Result SignedPayload EncodePayloadError
  sign_event sample =
      encode_and_sign C.ring C.base64 C.unix_epoch C.result_message (report_of_event sample.event)
        signing_key (minute C) sample.now sample.nonce

  -- The stream that `task_execution` is called with: reports that cannot be signed are left out.
  unfoldable pub execution_stream : List Sample → List SignedPayload
  unfolding sign_event
  execution_stream [] = []
  execution_stream (sample ∷ samples) =
      let rest = execution_stream samples in
      elim (sign_event sample) [ ok signed ↦ signed ∷ rest | err e ↦ rest ]

  -- A report reads as the event's within a minute, less a second, of being signed.
  abbrev pub ReadsAs : (db : Database Keys) → db.State → Sample → SignedPayload → Type 0
  ReadsAs db s sample signed =
      (later : ℕ)
      → later + nanos ≤ sample.now + minute C
      → decode_payload (file_backend db C.ring) C.result_message C.unix_epoch later signed s
        ≡ ok (report_of_event sample.event)

  -- The report can be signed, with an expiry time that the system can represent.
  abbrev pub CanSign : Sample → Type 0
  CanSign sample =
      (signed : SignedPayload) × (sign_event sample ≡ ok signed)
      × (signed.valid_until_secs ≤ max_system_secs)

  -- Where the key store of the task server has the public key of the executor, it reads the stream of
  -- reports as one result for each event of the command, in their order.
  pub execution_stream_ok :
      IsSignature C.ring
      → IsMessage C.result_message
      → (bytes : Bytes) (pair : C.ring.KeyPair) → C.base64.decode signing_key.pkcs8 ≡ ok bytes
      → C.ring.from_pkcs8 bytes ≡ ok pair
      → (db : Database Keys) (s : db.State) (keys : Keys) → db.read s ≡ ok keys
      → HashMap.get signing_key.id keys ≡ some (C.ring.public_key pair)
      → (samples : List Sample) → All CanSign samples
      → Forall₂ (ReadsAs db s) samples (execution_stream samples)
  unfolding execution_stream sign_event
  execution_stream_ok law codec bytes pair decoded parsed db s keys read known [] _ = Forall₂.nil
  execution_stream_ok law codec bytes pair decoded parsed db s keys read known (x ∷ xs)
        ((signed, made, small), more) =
      rw (made, execution_stream)
        (Forall₂.cons
          (λ later h.
            decode_payload-encode_and_sign_in_file C.ring C.base64 C.unix_epoch C.result_message
              (report_of_event x.event) signing_key (minute C) x.now x.nonce signed bytes pair
              decoded parsed made law codec db s keys read known small later h)
          (execution_stream_ok law codec bytes pair decoded parsed db s keys read known xs more))
