-- ===== src/Ocpp/Calls.antt =====
-- backend/src/evagg/ocpp_gateway/ws_app.py, LiveConnection and LiveConnectionRegistry: the calls that the
-- gateway makes to a charger, each waiting for the charger's answer under its unique id.
pub mod Waiting
use evaggregator.Base.{
  Bool, Exec, Option, Result, [], err, false, if◌then◌else◌, nat_eq, none, ok, some, true, ℕ, ◌==◌,
}
use evaggregator.Base.Dict.{Dict, erase, insert, lookup}

pub data RemoteCallError : Type 0 where
  call_timed_out : RemoteCallError
  call_rejected : ℕ → ℕ → RemoteCallError

-- A future: pending, or done with a result or an exception.
pub data Future : Type 0 where
  pending : Future
  done : Result RemoteCallError ℕ → Future

pub record LiveConnection : Type 0 where
  pub calls : Dict ℕ Future

abbrev pub new_connection : LiveConnection
new_connection = record { calls = [] }

-- `send_call` up to the await: the future is there before the frame is sent.
unfoldable pub begin_call : ℕ → LiveConnection → LiveConnection
begin_call unique_id c = record c { calls = insert unique_id pending c.calls }

abbrev pub awaited : Option Future → Result RemoteCallError ℕ
awaited none = err call_timed_out
awaited (some pending) = err call_timed_out
awaited (some (done r)) = r

-- `send_call` from the await on, once the future is done or the time is over.
unfoldable pub finish_call : ℕ → Exec RemoteCallError LiveConnection ℕ
finish_call unique_id c =
    (awaited (lookup unique_id c.calls), record c { calls = erase unique_id c.calls })

abbrev pub settle_future :
    ℕ → Result RemoteCallError ℕ → Option Future → LiveConnection → Bool × LiveConnection
settle_future unique_id r none c = (false, c)
settle_future unique_id r (some (done r')) c = (false, c)
settle_future unique_id r (some pending) c =
    (true, record c { calls = insert unique_id (done r) c.calls })

unfoldable pub resolve : ℕ → ℕ → LiveConnection → Bool × LiveConnection
resolve unique_id result c = settle_future unique_id (ok result) (lookup unique_id c.calls) c

unfoldable pub reject : ℕ → ℕ → ℕ → LiveConnection → Bool × LiveConnection
reject unique_id code description c =
    settle_future unique_id (err (call_rejected code description)) (lookup unique_id c.calls) c

-- The connections that are open on this node, by charger. A connection is known by a number, since
-- `unregister` compares by `is`.
abbrev pub LiveConnectionRegistry : Type 0
LiveConnectionRegistry = Dict ℕ ℕ

unfoldable pub register : ℕ → ℕ → LiveConnectionRegistry → LiveConnectionRegistry
register charger connection s = insert charger connection s

abbrev pub get_connection : ℕ → LiveConnectionRegistry → Option ℕ
get_connection charger s = lookup charger s

abbrev pub is_connection : ℕ → Option ℕ → Bool
is_connection connection none = false
is_connection connection (some c) = c == connection

unfoldable pub unregister : ℕ → ℕ → LiveConnectionRegistry → LiveConnectionRegistry
unregister charger connection s =
    if is_connection connection (lookup charger s) then erase charger s else s
