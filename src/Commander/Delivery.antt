-- ===== src/Commander/Delivery.antt =====
-- From the commander to the task server: which command lines become requests, and that these pass.
pub mod Remote
use funtonic.Base.{
  ℕ, ◌*◌, ◌+◌, ◌≤◌, String, ◌≡◌, ◌↔◌, ◌∙◌, ap, sym, refl, true, false, some, List, [], ◌∷◌, Result,
  ok, ◌>>=◌, map_err, map_err_ok, ok-injective, and_then_ok, All, arith, Bool-cases, inl, inr,
}
use funtonic.Crypto.Library.{Bytes, IsSignature, IsMessage, Skips}
use funtonic.Crypto.SignedPayload.{SignedPayload, encode_and_sign, nanos}
use funtonic.Crypto.KeyStore.Memory.{MemoryKeyStore, memory_backend}
use funtonic.Crypto.KeyStore.Store.{decode_payload, max_system_secs}
use funtonic.Crypto.KeyStore.Decode.{decode_payload-eq-ok_iff}
use funtonic.TaskServer.Env.{parse_text, Env}
use funtonic.TaskServer.State.{TaskServer}
use funtonic.TaskServer.Protocol.{
  LaunchTaskRequest, Task, execute_command, authorize_key, revoke_key, streaming_payload,
}
use funtonic.TaskServer.CommanderService.{admit, check_admin_key, check_implemented}
use funtonic.Commander.Results.{CommandOptions}
use funtonic.Commander.Words.{join}
use funtonic.Commander.Requests.{
  authorize, revoke, Cmd, run, keys, HandleError, query, decoding, signing, safeguard_command,
  is_unsafe, confirms, ask, safeguard, Session, launch_request, handle_key_cmd, handle_cmd,
}
use funtonic.Base.HashMap
use funtonic.Crypto.KeyStore.RoundTrip

-- The commands before the first one without a word.
abbrev pub until_empty : List (List String) → List (List String)
until_empty [] = []
until_empty ([] ∷ commands) = []
until_empty ((command ∷ words) ∷ commands) = (command ∷ words) ∷ until_empty commands

abbrev pub StartsSafely : List String → Type 0
StartsSafely [] = Unit
StartsSafely (command ∷ words) = is_unsafe command ≡ false

-- On a terminal whose user does not confirm, a command line is let through exactly when each command
-- before the first empty one starts with a safe word.
pub safeguard-eq-ok_iff :
    (line : String)
    → confirms line ≡ false
    → (commands : List (List String))
    → (safeguard true (ok line) commands ≡ ok tt) ↔ All StartsSafely (until_empty commands)
unfolding safeguard ask
safeguard-eq-ok_iff line refused [] = (λ h. tt, λ a. refl)
safeguard-eq-ok_iff line refused ([] ∷ commands) = (λ h. tt, λ a. refl)
safeguard-eq-ok_iff line refused ((command ∷ words) ∷ commands) =
    let ih = safeguard-eq-ok_iff line refused commands in
    (
      λ h. elim (Bool-cases (is_unsafe command)) [
        | inl unsafe ↦ absurd (ground (arith, unsafe, refused))
        | inr safe ↦ (safe, ih.0 (ground (arith, safe)))
      ],
      λ (safe, more). ground (arith, safe, ih.1 more),
    )

abbrev paired :
    CommandOptions → LaunchTaskRequest → Result (LaunchTaskRequest × CommandOptions) HandleError
paired options request = ok (request, options)

requested :
    (m : Result LaunchTaskRequest HandleError) (options : CommandOptions) (r : LaunchTaskRequest)
    (o : CommandOptions)
    → (m >>= paired options) ≡ ok (r, o)
    → m ≡ ok r
requested m options r o h =
    let (request, made, same) = and_then_ok m (paired options) (r, o) h in
    made ∙ ap (λ p. ok p.0) (ok-injective (request, options) (r, o) same)

module _ (E : Env) (session : Session) (law : IsSignature E.ring)
    (codec : IsMessage E.launch_message) (bytes : Bytes) (pair : E.ring.KeyPair)
    (decoded : E.base64.decode session.ed25519_key.pkcs8 ≡ ok bytes)
    (parsed : E.ring.from_pkcs8 bytes ≡ ok pair) where
  -- The store is usable and has the public key of the commander.
  abbrev pub Knows : MemoryKeyStore → Type 0
  Knows store =
      (store.poisoned ≡ false)
      × (HashMap.get session.ed25519_key.id store.inner ≡ some (E.ring.public_key pair))

  -- Commands about keys need the commander's key among the admin keys.
  abbrev pub MayAsk : Cmd → TaskServer E → Type 0
  MayAsk (run options predicate words) s = Unit
  MayAsk (keys options predicate key_cmd) s = Knows s.authorized_admin_keys

  -- A task as it is signed for the request.
  abbrev Made : Task → SignedPayload → Type 0
  Made task signed =
      encode_and_sign E.ring E.base64 E.unix_epoch E.launch_message (record { task = some task })
        session.ed25519_key (60 * nanos) session.now session.nonce
      ≡ ok signed

  accepted :
      (task : Task) (signed : SignedPayload) (store : MemoryKeyStore) (later : ℕ)
      → Made task signed
      → Knows store
      → signed.valid_until_secs ≤ max_system_secs
      → later + nanos ≤ session.now + 60 * nanos
      → decode_payload (memory_backend E.ring) E.launch_message E.unix_epoch later signed store
        ≡ ok (record { task = some task })
  accepted task signed store later made (healthy, known) small in_time =
      RoundTrip.decode_payload-encode_and_sign E.ring E.base64 E.unix_epoch E.launch_message
        (record { task = some task }) session.ed25519_key (60 * nanos) session.now session.nonce
        signed bytes pair decoded parsed made law codec store healthy known small later in_time

  accepted_unit :
      (task : Task) (signed : SignedPayload) (store : MemoryKeyStore) (later : ℕ)
      → Made task signed
      → Knows store
      → Skips E.launch_message E.unit_message
      → signed.valid_until_secs ≤ max_system_secs
      → later + nanos ≤ session.now + 60 * nanos
      → decode_payload (memory_backend E.ring) E.unit_message E.unix_epoch later signed store
        ≡ ok tt
  accepted_unit task signed store later made (healthy, known) unit small in_time =
      (decode_payload-eq-ok_iff (memory_backend E.ring) E.unit_message E.unix_epoch later signed
          store tt).1
        (
          small,
          RoundTrip.not_expired E.ring E.base64 E.unix_epoch E.launch_message
              (record { task = some task }) session.ed25519_key (60 * nanos) session.now
              session.nonce signed bytes pair decoded parsed made later in_time,
          RoundTrip.verified E.ring E.base64 E.unix_epoch E.launch_message
              (record { task = some task }) session.ed25519_key (60 * nanos) session.now
              session.nonce signed bytes pair decoded parsed made law store healthy known,
          unit.decode-encode (record { task = some task }) signed.payload
              (RoundTrip.encoded E.ring E.base64 E.unix_epoch E.launch_message
                (record { task = some task }) session.ed25519_key (60 * nanos) session.now
                session.nonce signed bytes pair decoded parsed made),
        )

  request_inv :
      (task : Task) (predicate : String) (r : LaunchTaskRequest)
      → launch_request E session task predicate ≡ ok r
      → (signed : SignedPayload) × Made task signed × (r.payload ≡ some signed)
  unfolding launch_request
  request_inv task predicate r h =
      let (signed, made, sent) =
        and_then_ok
          (map_err signing (
            encode_and_sign E.ring E.base64 E.unix_epoch E.launch_message
              (record { task = some task }) session.ed25519_key (60 * nanos) session.now
              session.nonce))
          _ r h in
      (signed, map_err_ok signing _ signed made, ap (λ q. q.payload) (sym (ok-injective _ r sent)))

  admit_made :
      (task : Task) (signed : SignedPayload) (r : LaunchTaskRequest) (s : TaskServer E) (later : ℕ)
      → r.payload ≡ some signed
      → decode_payload
          (memory_backend E.ring)
          E.launch_message
          E.unix_epoch
          later
          signed
          s.authorized_keys
        ≡ ok (record { task = some task })
      → check_admin_key E later task signed s ≡ (ok tt, s)
      → check_implemented E later task ≡ ok tt
      → (admit E later r s).0 ≡ ok signed
  unfolding admit
  admit_made task signed r s later given decodes checked implemented =
      rw (given, decodes, checked, implemented) refl

  -- What the server needs for a task of its own.
  abbrev Needs : Task → TaskServer E → Type 0
  Needs (execute_command c) s = Unit
  Needs (streaming_payload p) s = ⊥
  Needs (authorize_key k) s = Knows s.authorized_admin_keys × Skips E.launch_message E.unit_message
  Needs (revoke_key k) s = Knows s.authorized_admin_keys × Skips E.launch_message E.unit_message

  checks :
      (task : Task) (signed : SignedPayload) (s : TaskServer E) (later : ℕ)
      → Made task signed
      → Needs task s
      → signed.valid_until_secs ≤ max_system_secs
      → later + nanos ≤ session.now + 60 * nanos
      → (check_admin_key E later task signed s ≡ (ok tt, s))
        × (check_implemented E later task ≡ ok tt)
  unfolding check_admin_key check_implemented
  checks (execute_command c) signed s later made needs small in_time = (refl, refl)
  checks (streaming_payload p) signed s later made needs small in_time = absurd needs
  checks (authorize_key k) signed s later made (knows, unit) small in_time = (
    rw
        (accepted_unit (authorize_key k) signed s.authorized_admin_keys later made knows unit small
          in_time)
        refl,
    refl,
  )
  checks (revoke_key k) signed s later made (knows, unit) small in_time = (
    rw
        (accepted_unit (revoke_key k) signed s.authorized_admin_keys later made knows unit small
          in_time)
        refl,
    refl,
  )

  run-Made :
      (options : CommandOptions) (predicate : String) (words : List String) (r : LaunchTaskRequest)
      (o : CommandOptions)
      → handle_cmd E session (run options predicate words) ≡ ok (r, o)
      → (signed : SignedPayload) × Made (execute_command (join words)) signed
        × (r.payload ≡ some signed)
  unfolding handle_cmd
  run-Made options predicate words r o h =
      let (_, _, g0) = and_then_ok (map_err query (parse_text E predicate)) _ (r, o) h in
      let (_, _, g1) =
        and_then_ok
          (safeguard_command (session.multiparse (join words)) session.stdin_is_tty session.answer)
          _ (r, o) g0 in
      request_inv (execute_command (join words)) predicate r (
        requested (launch_request E session (execute_command (join words)) predicate) options r o
          g1)

  task_of_request :
      (cmd : Cmd) (r : LaunchTaskRequest) (options : CommandOptions) (s : TaskServer E)
      → handle_cmd E session cmd ≡ ok (r, options)
      → MayAsk cmd s
      → Skips E.launch_message E.unit_message
      → (task : Task) × (signed : SignedPayload) × Made task signed
        × (r.payload ≡ some signed)
        × Needs task s
  unfolding handle_cmd handle_key_cmd
  task_of_request (run options predicate words) r o s h may skips =
      let (signed, made, given) = run-Made options predicate words r o h in
      (execute_command (join words), signed, made, given, tt)
  task_of_request (keys options predicate (authorize id key)) r o s h may skips =
      let (_, _, g0) = and_then_ok (map_err query (parse_text E predicate)) _ (r, o) h in
      let (key_bytes, _, g1) =
        and_then_ok (map_err decoding (E.base64.decode key)) _ r
          (requested (handle_key_cmd E session predicate (authorize id key)) options r o g0) in
      let task = authorize_key (record { key_id = id; key_bytes = key_bytes }) in
      let (signed, made, given) = request_inv task predicate r g1 in
      (task, signed, made, given, (may, skips))
  task_of_request (keys options predicate (revoke id)) r o s h may skips =
      let (_, _, g0) = and_then_ok (map_err query (parse_text E predicate)) _ (r, o) h in
      let (signed, made, given) =
        request_inv (revoke_key id) predicate r
          (requested (handle_key_cmd E session predicate (revoke id)) options r o g0) in
      (revoke_key id, signed, made, given, (may, skips))

  -- A request that the commander makes passes the checks of a task server that has its key, up to a
  -- second before the minute of its validity is over, if its expiry time is one that the system can
  -- represent and the empty message skips the fields of an encoded task. For commands about keys the
  -- server has the key among the admin keys too.
  pub admit-handle_cmd :
      (cmd : Cmd) (r : LaunchTaskRequest) (options : CommandOptions) (s : TaskServer E)
      → handle_cmd E session cmd ≡ ok (r, options)
      → MayAsk cmd s
      → Knows s.authorized_keys
      → Skips E.launch_message E.unit_message
      → (later : ℕ) → later + nanos ≤ session.now + 60 * nanos
      → (signed : SignedPayload) × (r.payload ≡ some signed)
        × (signed.valid_until_secs ≤ max_system_secs → (admit E later r s).0 ≡ ok signed)
  admit-handle_cmd cmd r options s h may knows skips later in_time =
      let (task, signed, made, given, needs) = task_of_request cmd r options s h may skips in
      (
        signed,
        given,
        λ small.
            let (checked, implemented) = checks task signed s later made needs small in_time in
            admit_made task signed r s later given
              (accepted task signed s.authorized_keys later made knows small in_time) checked
              implemented,
      )
