-- ===== src/Commander/Display.antt =====
-- commander/src/admin.rs: the admin commands, and what is printed of the answer to one.
use text.Mathlib.Text.{get?}
use Prim.Native.String.{len, ◌++◌}
use funtonic.Base
use funtonic.Base.{
  ℕ, ◌*◌, String, Bool, true, false, Option, none, some, List, [], ◌∷◌, Result, ok, err, map_err,
  ◌==◌, if◌then◌else◌, length, ltb,
}
use funtonic.Base.Action.{Action, pure, lift, ◌>>=◌, ◌>>◌}
use funtonic.Base.HashMap.{HashMap}
use funtonic.Crypto.SignedPayload.{EncodePayloadError}
use funtonic.ExecutorMeta.{ExecutorMeta, TagMap}
use funtonic.TaskServer.Env.{AdminDroppedExecutorJsonResponse, AdminListExecutorKeysJsonResponse}

pub data AdminCommand : Type 0 where
  list_connected_executors list_known_executors : Option String → AdminCommand
  list_running_tasks list_executor_keys list_authorized_keys list_admin_authorized_keys :
      AdminCommand
  drop_executor approve_executor_key : String → AdminCommand

-- `InvalidOutputMode`, the error of `from_str`, is `none` here.
pub data AdminCommandOutputMode : Type 0 where
  json pretty_json human_readable_short human_readable_long : AdminCommandOutputMode

unfoldable pub from_str : String → Option AdminCommandOutputMode
from_str s =
    if s == "json"
    then some json
    else if s == "js"
    then some json
    else if s == "pretty-json"
    then some pretty_json
    else if s == "pjs"
    then some pretty_json
    else if s == "human-readable"
    then some human_readable_short
    else if s == "hr"
    then some human_readable_short
    else if s == "human-readable-long"
    then some human_readable_long
    else if s == "hrl"
    then some human_readable_long
    else none

-- `query.unwrap_or("*")`
unfoldable pub query_or_all : Option String → String
query_or_all none = "*"
query_or_all (some query) = query

-- What stands on the standard output: a line, or a table with its format, its titles and its rows.
pub data Printed : Type 0 where
  line : String → Printed
  table : Bool → List String → List (List String) → Printed

pub data AdminError : Type 0 where
  signing : EncodePayloadError → AdminError
  -- the status that the call ends with
  status : String → AdminError
  -- serde_json and serde_yaml
  serde : String → AdminError
  -- a panic of the thread
  panic : AdminError

-- colored, serde_json and serde_yaml, and the digits of a `usize`.
pub record Display : Type 0 where
  pub green : String → String
  pub red : String → String
  pub show_usize : ℕ → String
  pub pretty : String → Result String String
  pub read_executors : String → Result (HashMap ExecutorMeta) String
  pub read_tokens : String → Result (List String) String
  pub read_dropped : String → Result (HashMap AdminDroppedExecutorJsonResponse) String
  pub read_executor_keys : String → Result AdminListExecutorKeysJsonResponse String
  pub read_keys : String → Result (HashMap String) String
  pub tags_to_json : TagMap → Result String String
  pub tags_to_yaml : TagMap → Result String String

abbrev pub Console : Type 0 → Type 0
Console A = Action (List Printed) AdminError A

unfoldable pub print : Printed → Console (Unit {0})
print p printed = (ok tt, Base.◌++◌ printed (p ∷ []))

unfoldable pub from_serde {ℓ} : {A : Type ℓ} → Result A String → Result A AdminError
from_serde r = map_err serde r

-- `s[4..]`, which panics beyond the end and inside a character.
unfoldable pub skip_4 : String → Result String AdminError
skip_4 s = elim (get? s 4 (len s)) [ none ↦ err panic | some rest ↦ ok rest ]

unfoldable pub is_short : AdminCommandOutputMode → Bool
is_short human_readable_short = true
is_short _ = false

module _ (D : Display) where
  unfoldable pub show_tags : AdminCommandOutputMode → TagMap → Result String AdminError
  unfolding skip_4 is_short from_serde
  show_tags output_mode tags =
      if is_short output_mode
      then from_serde (D.tags_to_json tags)
      else Base.◌>>=◌ (from_serde (D.tags_to_yaml tags)) skip_4

  unfoldable pub executor_rows :
      AdminCommandOutputMode → HashMap ExecutorMeta → Result (List (List String)) AdminError
  unfolding show_tags
  executor_rows output_mode [] = ok []
  executor_rows output_mode ((client_id, meta) ∷ executors) =
      Base.◌>>=◌ (show_tags output_mode meta.tags) (λ tags.
        Base.◌>>=◌ (executor_rows output_mode executors)
          (λ rows. ok ((D.green client_id ∷ meta.version ∷ tags ∷ []) ∷ rows)))

  unfoldable pub colored_bool : Bool → String
  colored_bool true = D.green "true"
  colored_bool false = D.red "false"

  unfoldable pub dropped_rows : HashMap AdminDroppedExecutorJsonResponse → List (List String)
  unfolding colored_bool
  dropped_rows [] = []
  dropped_rows ((client_id, dropped) ∷ more) =
      (D.green client_id
        ∷ colored_bool dropped.removed_from_known
        ∷ colored_bool dropped.removed_from_connected
        ∷ [])
      ∷ dropped_rows more

  unfoldable pub key_rows : (String → String) → HashMap String → List (List String)
  key_rows color [] = []
  key_rows color ((client_id, key) ∷ keys) = (color client_id ∷ key ∷ []) ∷ key_rows color keys

  unfoldable pub print_executors : String → AdminCommandOutputMode → String → Console (Unit {0})
  unfolding print executor_rows is_short from_serde
  print_executors query output_mode raw_json = do
    print (line ("Executors matching query: " ++ query))
    executors ← lift (from_serde (D.read_executors raw_json))
    elim executors [
      | [] ↦ print (line ("Found " ++ D.red "0" ++ " executor"))
      | executor ∷ more ↦ do
        rows ← lift (executor_rows output_mode (executor ∷ more))
        print (table (is_short output_mode) ("client_id" ∷ "version" ∷ "meta" ∷ []) rows)
        print (line ("Found " ++ D.green (D.show_usize (length (executor ∷ more))) ++ " executors"))
    ]

  unfoldable pub print_lines : List String → Console (Unit {0})
  unfolding print
  print_lines [] = pure tt
  print_lines (token ∷ tokens) = do print (line token); print_lines tokens

  unfoldable pub print_dropped : String → AdminCommandOutputMode → String → Console (Unit {0})
  unfolding print dropped_rows is_short from_serde
  print_dropped query output_mode raw_json = do
    dropped ← lift (from_serde (D.read_dropped raw_json))
    print (line ("Executors matching query: " ++ query))
    elim dropped [
      | [] ↦ print (line ("Found " ++ D.red "0" ++ " executor, none dropped!"))
      | executor ∷ more ↦ do
        print (
            table (is_short output_mode) ("client_id" ∷ "known" ∷ "connected" ∷ [])
              (dropped_rows (executor ∷ more)))
        print
            (line ("Dropped " ++ D.green (D.show_usize (length (executor ∷ more))) ++ " executors"))
    ]

  unfoldable pub print_executor_keys : String → Console (Unit {0})
  unfolding print key_rows from_serde
  print_executor_keys raw_json = do
    keys ← lift (from_serde (D.read_executor_keys raw_json))
    print (line (D.green "Trusted executors"))
    print (table true ("client_id" ∷ "key" ∷ []) (key_rows D.green keys.trusted_executor_keys))
    print (line (D.red "Waiting for approval executors"))
    print (table true ("client_id" ∷ "key" ∷ []) (key_rows D.red keys.unapproved_executor_keys))

  unfoldable pub print_keys : String → String → Console (Unit {0})
  unfolding print key_rows from_serde
  print_keys title raw_json = do
    keys ← lift (from_serde (D.read_keys raw_json))
    print (line (D.green title))
    print (table true ("key_id" ∷ "key" ∷ []) (key_rows D.green keys))

  unfoldable pub print_human : AdminCommand → AdminCommandOutputMode → String → Console (Unit {0})
  unfolding print_executors print_lines print_dropped print_executor_keys print_keys query_or_all
  print_human (list_connected_executors query) output_mode raw_json =
      print_executors (query_or_all query) output_mode raw_json
  print_human (list_known_executors query) output_mode raw_json =
      print_executors (query_or_all query) output_mode raw_json
  print_human list_running_tasks output_mode raw_json = do
    tokens ← lift (from_serde (D.read_tokens raw_json))
    print_lines tokens
  print_human (drop_executor query) output_mode raw_json = print_dropped query output_mode raw_json
  print_human list_executor_keys output_mode raw_json = print_executor_keys raw_json
  print_human (approve_executor_key executor) output_mode raw_json = pure tt
  print_human list_authorized_keys output_mode raw_json = print_keys "Authorized Keys" raw_json
  print_human list_admin_authorized_keys output_mode raw_json =
      print_keys "Admin Authorized Keys" raw_json

  unfoldable pub display_formatted_output :
      AdminCommand → String → AdminCommandOutputMode → Console (Unit {0})
  unfolding print_human print from_serde
  display_formatted_output command raw_json json = print (line raw_json)
  display_formatted_output command raw_json pretty_json = do
    pretty ← lift (from_serde (D.pretty raw_json))
    print (line pretty)
  display_formatted_output command raw_json output_mode = print_human command output_mode raw_json
