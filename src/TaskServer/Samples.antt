-- ===== src/TaskServer/Samples.antt =====
-- A small environment that meets the assumptions of TaskServer/Env, for the tests.
use mathlib.Core.List.{Mem, mem-cons_self, mem-append_right, mem-append_left}
use funtonic.Base.{
  ℕ, suc, String, ◌≡◌, inl, inr, Bool, true, false, List, [], ◌∷◌, ◌++◌, some, Result, ok, err,
  Lock, nat_eq, Bool-cases, arith, if◌then◌else◌,
}
use funtonic.Base.Action.{Action}
use funtonic.Crypto.SignedPayload.{SignedPayload, to_sign_from_exploded_payload}
use funtonic.TaskServer.Env.{Channels, IsChannels, Env}
use funtonic.TaskServer.State.{TaskServer}
use funtonic.TaskServer.Protocol.{
  TaskResponse, LaunchTaskRequestPayload, execute_command, revoke_key, AdminRequest,
  approve_executor_key, drop_executor, GetTasksRequest, TaskExecutionResult, task_completed,
}
use funtonic.ExecutorMeta.{ExecutorMeta, TagMap}
use funtonic.ExecutorMeta.Proto.{ValueMap}
use funtonic.Base.HashMap.{HashMap}
use funtonic.Crypto.Library.{Bytes}
use funtonic.Crypto.KeyStore.{Keys}
use funtonic.Query.Parser.Samples.{toy_nom}
use funtonic.Crypto.Samples.{toy_ring, toy_base64, toy_database}

-- Channels numbered from 0: the next number, whether each has a receiver, and what it holds.
pub record World : Type 0 where
  pub next : ℕ
  pub live : ℕ → Bool
  pub sent_tasks : ℕ → List (SignedPayload × ℕ)
  pub sent_responses : ℕ → List TaskResponse

abbrev pub update : {A : Type 0} → ℕ → A → (ℕ → A) → ℕ → A
update i a f j = if nat_eq i j then a else f j

abbrev pub make : World → ℕ × World
make w = (
  w.next,
  record {
    next = suc w.next;
    live = update w.next true w.live;
    sent_tasks = update w.next [] w.sent_tasks;
    sent_responses = update w.next [] w.sent_responses;
  },
)

abbrev pub push_task : ℕ → SignedPayload × ℕ → Action World (Unit {0}) (Unit {0})
push_task i p w =
    if w.live i
    then (ok tt, record w { sent_tasks = update i (w.sent_tasks i ++ p ∷ []) w.sent_tasks })
    else (err tt, w)

abbrev pub push_response : ℕ → TaskResponse → Action World (Unit {0}) (Unit {0})
push_response i r w =
    if w.live i
    then (
      ok tt,
      record w { sent_responses = update i (w.sent_responses i ++ r ∷ []) w.sent_responses },
    )
    else (err tt, w)

abbrev pub toy_channels : Channels
toy_channels = record {
  World = World;
  Sender = ℕ;
  unbounded = make;
  send_task = push_task;
  send_response = push_response;
}

same : {A : Type 0} (i : ℕ) (a b : A) → (if nat_eq i i then a else b) ≡ a
same i a b = ground arith

equal : (s t : ℕ) → nat_eq s t ≡ true → s ≡ t
equal s t h = ground arith

kept :
    (s t : ℕ) (p q : SignedPayload × ℕ) (w : World)
    → Mem q (w.sent_tasks t)
    → Mem q ((push_task s p w).1.sent_tasks t)
kept s t p q w m = elim (Bool-cases (w.live s)) [
  | inl here ↦ elim (Bool-cases (nat_eq s t)) [
    | inl at ↦ rw (here, at) (mem-append_left (p ∷ []) (rw (equal s t at) m))
    | inr away ↦ rw (here, away) m
  ]
  | inr gone ↦ rw gone m
]

pub toy_channels-IsChannels : IsChannels toy_channels
toy_channels-IsChannels = record {
  tasks = λ w. w.sent_tasks;
  responses = λ w. w.sent_responses;
  has_receiver = λ w. w.live;
  responses-unbounded = λ w. same w.next [] (w.sent_responses w.next);
  has_receiver-unbounded = λ w. same w.next true (w.live w.next);
  send_response_ok =
      λ s r w h. (ground arith, rw h (same s (w.sent_responses s ++ r ∷ []) (w.sent_responses s)));
  send_task_ok = λ s p w h. (
    ground arith,
    rw (h, same s (w.sent_tasks s ++ p ∷ []) (w.sent_tasks s))
        (mem-append_right (w.sent_tasks s) mem-cons_self),
  );
  send_task_err = λ s p w h. ground arith;
  tasks-send_task = kept;
  tasks-send_response = λ s t r w. ground arith;
  has_receiver-send_response = λ s t r w. ground arith;
  has_receiver-send_task = λ s t p w. ground arith;
  responses-send_task = λ s t p w. ground arith;
}

-- Messages are told by their first byte.
abbrev pub toy_launch : Bytes → Result LaunchTaskRequestPayload String
toy_launch (b ∷ _) =
    if nat_eq b 0
    then ok (record { task = some (execute_command "uptime") })
    else ok (record { task = some (revoke_key "gone") })
toy_launch [] = err "no task"

abbrev pub toy_admin : Bytes → Result AdminRequest String
toy_admin (b ∷ _) =
    if nat_eq b 0
    then ok (record { request_type = some (approve_executor_key "e2") })
    else ok (record { request_type = some (drop_executor "*") })
toy_admin [] = err "no request"

abbrev pub toy_tasks : GetTasksRequest
toy_tasks = record {
  client_id = "e1";
  client_version = "1";
  tags = ValueMap.empty;
  client_protocol_version = "2";
  authorized_keys = [];
}

abbrev pub toy_result : TaskExecutionResult
toy_result = record {
  task_id = "task";
  client_id = "e1";
  execution_result = some (task_completed 0);
}

abbrev pub toy_env : Env
toy_env = record {
  channels = toy_channels;
  ring = toy_ring;
  base64 = toy_base64;
  key_database = toy_database Keys;
  meta_database = toy_database (HashMap ExecutorMeta);
  launch_message = record { encode = λ p. err "unused"; decode = toy_launch };
  admin_message = record { encode = λ p. err "unused"; decode = toy_admin };
  tasks_message = record { encode = λ p. err "unused"; decode = λ b. ok toy_tasks };
  result_message = record { encode = λ p. err "unused"; decode = λ b. ok toy_result };
  unit_message = record { encode = λ p. ok []; decode = λ b. ok tt };
  to_json = λ a. ok "{}";
  nom = toy_nom;
  random_task_id = λ n. "task";
  unix_epoch = 0;
  protocol_version = "2";
}

abbrev pub empty_world : World
empty_world = record { next = 0; live = λ i. false; sent_tasks = λ i. []; sent_responses = λ i. [] }

-- Channel 0 leads to an executor that listens.
abbrev pub one_executor : World
one_executor = (make empty_world).1

-- Signed by the key whose bytes are `k`.
abbrev pub signed_by : String → Bytes → Bytes → SignedPayload
signed_by id k payload = record {
  payload = payload;
  nonce = 0;
  valid_until_secs = 10;
  signature = k ++ to_sign_from_exploded_payload payload 0 10;
  key_id = id;
}

abbrev pub unlocked : {A : Type 0} → A → Lock A
unlocked a = record { poisoned = false; inner = a }

abbrev pub meta_e1 : ExecutorMeta
meta_e1 = record { client_id = "e1"; version = "1"; tags = TagMap.empty }

-- `c1` may launch tasks, `a1` is an administrator, `e1` is known and connected.
abbrev pub server : TaskServer toy_env
server = record {
  executors = unlocked (("e1", 0) ∷ []);
  tasks_sinks = unlocked [];
  executor_meta_database = ("e1", meta_e1) ∷ [];
  authorized_keys = unlocked (("c1", 5 ∷ []) ∷ []);
  authorized_admin_keys = unlocked (("a1", 6 ∷ []) ∷ []);
  trusted_executor_keystore = ("e1", 7 ∷ []) ∷ [];
  unapproved_executor_keystore = [];
  world = one_executor;
  draws = 0;
}
