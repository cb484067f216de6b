-- ===== src/Examples/Link.antt =====
-- The theorems on the provisioning worker, the account and the session at concrete inputs.
use sigchat.Base.{
  List, ℕ, zero, suc, ◌≡◌, ◌≤◌, refl, true, false, [], ◌∷◌, ◌++◌, Option, none, some, ok, arith,
  length, replicate,
}
use sigchat.Text.{Bytes, codes}
use sigchat.Text.Utf8.{from_utf8, is_utf8}
use sigchat.MainWs.Session.{ignored_frame, binary_frame, sent_at}
use sigchat.WsServer.Buffer.{
  WsResultBuf, PendingResult, fill, take_result, as_result, ws_provision_max, take_result-fill,
}
use sigchat.WsServer.Worker.{
  Turn, MessageEnvelope, buffer, message, nothing, worker_loop, worker_thread, turn, Worker, Event,
  running, stopped, no_memory, from_usize, cancel,
}
use sigchat.WsServer.Worker.Cancel.{Answers, turn-cancel}
use sigchat.WsServer.Worker.Answered.{IsAnswered, worker_loop-IsAnswered}
use sigchat.WsServer.Worker.Safe.{IsSafe, IsSettled, worker_thread-IsSafe}
use sigchat.Account.Environment.{live, plus, minus}
use sigchat.Account.Values
use sigchat.Account.Fields.{Account, Failure, failed}
use sigchat.Account.Cache.{TextField, key_of, value_of, get-set-key_of}
use sigchat.Account.Fields
use sigchat.Examples.Database.{Table, database, database_laws, empty}

length-zeros : (n : ℕ) → length {A = ℕ} (replicate n 0) ≡ n
length-zeros zero = refl
length-zeros (suc n) = omega (arith, length-zeros n)

two_fit : 2 ≤ ws_provision_max
unfolding ws_provision_max
two_fit = omega arith

abbrev page : WsResultBuf
page = record { status = 255; len = 0; bytes = replicate ws_provision_max 0 }

take_result-fill_example :
    (filled : WsResultBuf) × (fill page (PendingResult.binary (5 ∷ 6 ∷ [])) ≡ some filled)
    × (take_result filled ≡ as_result (PendingResult.binary (5 ∷ 6 ∷ [])))
take_result-fill_example =
    take_result-fill page (PendingResult.binary (5 ∷ 6 ∷ [])) (length-zeros ws_provision_max)
      two_fit

abbrev ask : MessageEnvelope
ask = record { sender = 4; id = 0; body = buffer page true }

abbrev asked : Turn
asked = record {
  received = message ask;
  deadline_check = 10;
  ping_check = 10;
  ping_result = sent_at 10;
  read = ignored_frame;
}

abbrev answered : Turn
answered = record asked { received = nothing; read = binary_frame (5 ∷ 6 ∷ []) }

worker_thread-IsSafe_example :
    IsSafe (worker_thread (some (0, 0)) 60 (asked ∷ answered ∷ []))
    × IsSettled (worker_thread (some (0, 0)) 60 (asked ∷ answered ∷ []))
worker_thread-IsSafe_example =
    worker_thread-IsSafe (some (0, 0)) 60 (asked ∷ answered ∷ [])
      (length-zeros ws_provision_max, (tt, tt))

-- The only host.
abbrev parse_host : Bytes → Option Bytes
parse_host b = some b

abbrev dict : Bytes
dict = codes "sigchat.account"

abbrev fresh : Account Bytes
fresh = record {
  pddb_dict = dict;
  aci_identity_private = none;
  aci_identity_public = none;
  aci_service_id = none;
  device_id = 0;
  encrypted_device_name = none;
  host = codes "signal.org";
  is_multi_device = false;
  number = none;
  password = none;
  pin_master_key = none;
  pni_identity_private = none;
  pni_identity_public = none;
  pni_service_id = none;
  profile_key = none;
  registered = false;
  service_environment = live;
  storage_key = none;
  store_last_receive_timestamp = plus 0;
  store_manifest_version = minus 1;
  store_manifest = none;
}

plus_one_short : Values.read_back (some (codes "+1")) ≡ some (codes "+1")
unfolding from_utf8 is_utf8
plus_one_short = refl

host_short : Values.read_back (some (codes "signal.org")) ≡ some (codes "signal.org")
unfolding from_utf8 is_utf8
host_short = refl

get-set-key_of_example :
    (a' : Account Bytes) × (s' : Table) × (Fields.set database
        (key_of TextField.the_number)
        (some (codes "+1"))
        (fresh, empty)
      ≡ (ok tt, (a', s')))
    × ((Values.get database a'.pddb_dict (key_of TextField.the_number) s').0
        ≡ ok (value_of TextField.the_number a'))
get-set-key_of_example =
    get-set-key_of database database_laws TextField.the_number (some (codes "+1")) fresh empty
      plus_one_short

abbrev parked_worker : Worker
parked_worker = record { last_send_at = 0; pending = none; waiter = some ask }

abbrev stop : MessageEnvelope
stop = record { sender = 6; id = 1; body = no_memory }

abbrev stopping : Turn
stopping = record asked { received = message stop }

is_cancel : from_usize 1 ≡ some cancel
unfolding from_usize
is_cancel = refl

turn-cancel_example :
    (events : List Event) × (turn 60000 (running parked_worker []) stopping ≡ stopped events)
    × Answers (some ask) 6 events
turn-cancel_example =
    turn-cancel 60000 parked_worker [] stopping stop refl is_cancel
      (tt, length-zeros ws_provision_max)

abbrev passed : Turn
passed = record asked { received = nothing; deadline_check = 60000 }

worker_loop-IsAnswered_example :
    IsAnswered ask
      (worker_loop 60000 (running parked_worker []) ((answered ∷ []) ++ passed ∷ stopping ∷ []))
worker_loop-IsAnswered_example =
    worker_loop-IsAnswered 60000 ask parked_worker [] (answered ∷ []) (stopping ∷ []) passed refl
      (tt, length-zeros ws_provision_max) (tt, tt) refl (omega arith) (tt, tt)
