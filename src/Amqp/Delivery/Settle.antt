-- ===== src/Amqp/Delivery/Settle.antt =====
-- Ack, Nack and Reject of a delivery (delivery.go), and of a channel (channel.go).
use gitbook_golang.Prelude.{ℕ, ◌≡◌, refl, Bool, Option, none, some}
use gitbook_golang.Amqp.Delivery.{Delivery, base_delivery, deliver_delivery, get_ok_delivery}
use gitbook_golang.Amqp.Spec.Content.{BasicDeliver, BasicGetOk}
use gitbook_golang.Amqp.Spec.Message.{Message, basic_ack, basic_reject, basic_nack}

-- `errDeliveryNotInitialized`
pub data SettleError : Type 0 where
  delivery_not_initialized : SettleError

-- `Channel.send` does nothing with the message and returns nil.
unfoldable pub send : Message → Option SettleError
send msg = none

unfoldable pub channel_ack : ℕ → Bool → Option SettleError
channel_ack tag multiple = send (basic_ack (record { delivery_tag = tag; multiple = multiple }))

unfoldable pub channel_nack : ℕ → Bool → Bool → Option SettleError
channel_nack tag multiple requeue =
    send (basic_nack (record { delivery_tag = tag; multiple = multiple; requeue = requeue }))

unfoldable pub channel_reject : ℕ → Bool → Option SettleError
channel_reject tag requeue = send (basic_reject (record { delivery_tag = tag; requeue = requeue }))

-- The acknowledger of a delivery is a channel.
unfoldable pub acknowledged : Option ℕ → Option SettleError → Option SettleError
acknowledged none r = some delivery_not_initialized
acknowledged (some channel) r = r

unfoldable pub ack : Bool → Delivery → Option SettleError
ack multiple d = acknowledged d.acknowledger (channel_ack d.delivery_tag multiple)

unfoldable pub reject : Bool → Delivery → Option SettleError
reject requeue d = acknowledged d.acknowledger (channel_reject d.delivery_tag requeue)

unfoldable pub nack : Bool → Bool → Delivery → Option SettleError
nack multiple requeue d = acknowledged d.acknowledger (channel_nack d.delivery_tag multiple requeue)

-- Every delivery that is made of a basic.deliver or a basic.get-ok can be settled in each way without an
-- error, whatever the flags are; a delivery without an acknowledger in none.
pub settle_lem :
    (channel : ℕ) (m : BasicDeliver) (g : BasicGetOk) (d : Delivery) (multiple requeue : Bool)
    → d.acknowledger ≡ none
    → (ack multiple (deliver_delivery channel m) ≡ none)
      × (nack multiple requeue (deliver_delivery channel m) ≡ none)
      × (reject requeue (deliver_delivery channel m) ≡ none)
      × (ack multiple (get_ok_delivery channel g) ≡ none)
      × (nack multiple requeue (get_ok_delivery channel g) ≡ none)
      × (reject requeue (get_ok_delivery channel g) ≡ none)
      × (ack multiple d ≡ some delivery_not_initialized)
      × (nack multiple requeue d ≡ some delivery_not_initialized)
      × (reject requeue d ≡ some delivery_not_initialized)
unfolding ack nack reject channel_ack channel_nack channel_reject send acknowledged deliver_delivery
    get_ok_delivery base_delivery
settle_lem channel m g d multiple requeue e =
    (refl, refl, refl, refl, refl, refl, rw e refl, rw e refl, rw e refl)
