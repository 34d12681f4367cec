-- ===== src/Billing/Wallet/Examples.antt =====
-- A top-up of 500 that is delivered twice.
use evaggregator.Billing.Wallet.{psp_transaction}
use evaggregator.Billing.Wallet.TopUps.{Webhook, deliver_all, redelivery_ignored}
use evaggregator.Base.{[], refl, ◌∷◌, ◌≡◌}
use evaggregator.Base.Int.{pos}

abbrev webhook : Webhook
webhook = record { wallet = 1; txn = psp_transaction 70; amount = pos 500 }

abbrev other_webhook : Webhook
other_webhook = record { wallet = 2; txn = psp_transaction 71; amount = pos 30 }

redelivery_ignored_example :
    deliver_all (webhook ∷ (other_webhook ∷ (webhook ∷ []))) []
    ≡ deliver_all (webhook ∷ (other_webhook ∷ [])) []
redelivery_ignored_example =
    redelivery_ignored webhook webhook [] (other_webhook ∷ []) [] [] refl refl
