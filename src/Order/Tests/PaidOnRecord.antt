-- ===== src/Order/Tests/PaidOnRecord.antt =====
-- A payment client that refuses what is not stored, in place of one that accepts everything.
use ecommerce_microservice.Prelude.{◌≡◌, refl, Option, none, some, find}
use ecommerce_microservice.Shared.Errors.{NotFoundError}
use ecommerce_microservice.Shared.Action.{Outcome, throw}
use ecommerce_microservice.Shared.Dtos.{InitiatePaymentRequest, InitiatePaymentResponse}
use ecommerce_microservice.Order.Model.{Order}
use ecommerce_microservice.Order.Repository.{has_order_id}
use ecommerce_microservice.Order.Clients.{PaymentClient}
use ecommerce_microservice.Order.Service.{create_order}
use ecommerce_microservice.Order.PaidOnRecord.{
  AgreesOnStored, with_payments, create_order-pays_stored,
}
use ecommerce_microservice.Order.Tests.World.{
  Site, quiet_site, stored_laws, service, paid, lamp_request,
}

abbrev answer_for :
    Option Order → InitiatePaymentRequest → Site → Outcome InitiatePaymentResponse × Site
answer_for none p w = (throw (NotFoundError "Order" p.order_id), w)
answer_for (some _) p w = paid p none w

abbrev wary : PaymentClient Site
wary = record {
  initiate_payment = λ p c w. answer_for (find (has_order_id p.order_id) w.orders) p w;
}

wary-AgreesOnStored : AgreesOnStored (λ w. w.orders) wary (service paid).payment_client
wary-AgreesOnStored p c w awaits = rw awaits.found refl

create_order-pays_stored_example :
    create_order (with_payments (service paid) wary) lamp_request none (some "key-1") quiet_site
    ≡ create_order (service paid) lamp_request none (some "key-1") quiet_site
create_order-pays_stored_example =
    create_order-pays_stored (service paid) stored_laws refl wary wary-AgreesOnStored lamp_request
      none (some "key-1") quiet_site
