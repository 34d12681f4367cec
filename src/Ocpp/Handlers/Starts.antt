-- ===== src/Ocpp/Handlers/Starts.antt =====
-- Which transactions are opened.
use evaggregator.Ocpp.Handlers.{
  Gateway, Origin, StartFrame, handle_authorize, handle_start_transaction, start_of, start_reply,
}
use evaggregator.Ocpp.Transactions.{get_active_transaction, opened_transaction, start_transaction}
use evaggregator.Ocpp.Authorization.{AuthStatus, accepted}
use evaggregator.Base.{arith, nat_eq, some, ℕ, ◌≡◌, ◌≢◌}
use evaggregator.Base.Dict.{lookup-insert_self}

-- A StartTransaction of an accepted tag opens a transaction on the charger that sent it and replies
-- with its id; of any other tag it changes no transaction and replies with the nil id 0 and the tag's
-- status.
pub start-verdict :
    {T : Type 0} (roaming_check : ℕ → T → AuthStatus × T) (interval : ℕ) (o : Origin)
    (f : StartFrame) (g : Gateway T)
    → ((handle_authorize roaming_check interval f.id_tag g).0 ≡ accepted
        → ((handle_start_transaction roaming_check interval o f g).0
            ≡ start_reply o.new_id accepted)
          × (get_active_transaction o.charger_id
                (handle_start_transaction roaming_check interval o f g).1.transactions
              ≡ some (opened_transaction o.new_id (start_of o f))))
      × ((handle_authorize roaming_check interval f.id_tag g).0 ≢ accepted
          → ((handle_start_transaction roaming_check interval o f g).0
              ≡ start_reply 0 (handle_authorize roaming_check interval f.id_tag g).0)
            × ((handle_start_transaction roaming_check interval o f g).1.transactions
                ≡ g.transactions))
unfolding handle_start_transaction handle_authorize start_transaction get_active_transaction
start-verdict roaming_check interval o f g = ground (
  arith,
  lookup-insert_self o.charger_id (opened_transaction o.new_id (start_of o f))
      g.transactions.active_by_charger,
)
