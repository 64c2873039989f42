-- ===== src/Amqp/Channel.antt =====
-- channel.go: the state of a channel, the machine that puts frames together to messages, and what a
-- whole message does.
pub mod Recv
pub mod Delivered
pub mod Reassembly
pub mod Safe
pub mod Total
use mathlib.Core.Option
use gitbook_golang.Prelude.{
  ℕ, Bool, true, false, Option, none, some, List, [], ◌∷◌, ◌++◌, map, if◌then◌else◌,
}
use gitbook_golang.Amqp.Confirms.{Confirmation, Confirms, new_confirms, one, multiple}
use gitbook_golang.Amqp.Consumers.{
  Consumers, make_consumers, find, Called, returned, panicked, add, cancel, send,
}
use gitbook_golang.Amqp.Delivery.{Delivery, deliver_delivery, Return, new_return}
use gitbook_golang.Amqp.Frame.{HeaderFrame}
use gitbook_golang.Amqp.Spec.Content.{BasicDeliver}
use gitbook_golang.Amqp.Spec.Message.{
  Message, channel_flow, channel_close, basic_cancel, basic_return, basic_deliver, basic_ack,
  basic_nack,
}
use gitbook_golang.Amqp.Wire.{Bytes}

-- The value of the field `recv`.
pub data Expect : Type 0 where
  recv_method recv_header recv_content : Expect

-- The listeners are what has been sent on their channels. `rpc` is `none` for the nil channel that
-- `newChannel` leaves. The mutexes and the channels of errors are left out: nothing here uses them.
pub record Channel : Type 0 where
  pub id : ℕ
  pub rpc : Option (List (Option Message))
  pub consumers : Consumers
  pub flows : List (List Bool)
  pub returns : List (List Return)
  pub cancels : List (List Bytes)
  pub confirms : Confirms
  pub confirming : Bool
  pub recv : Expect
  pub message : Option Message
  pub header : Option HeaderFrame
  pub body : Bytes

unfoldable pub new_channel : ℕ → Channel
new_channel id = record {
  id = id;
  rpc = none;
  consumers = make_consumers;
  flows = [];
  returns = [];
  cancels = [];
  confirms = new_confirms;
  confirming = false;
  recv = recv_method;
  message = none;
  header = none;
  body = [];
}

-- What a call does: it returns (`went`), it panics (`crashed`), or it is in a loop that does not end.
pub data Step {ℓ} (A : Type ℓ) : Type ℓ where
  went : A → Step A
  crashed stuck : Step A

-- `for _, c := range listeners { c <- v }`
unfoldable pub broadcast {ℓ} : {A : Type ℓ} → A → List (List A) → List (List A)
broadcast v listeners = map (λ log. log ++ v ∷ []) listeners

unfoldable pub with_consumers : Channel → Called Consumers → Step Channel
with_consumers ch (returned cs) = went (record ch { consumers = cs })
with_consumers ch panicked = crashed

unfoldable pub with_found : Channel → Called (Consumers × Bool) → Step Channel
with_found ch (returned (cs, found)) = went (record ch { consumers = cs })
with_found ch panicked = crashed

unfoldable pub with_confirms : Channel → Option Confirms → Step Channel
with_confirms ch (some cs) = went (record ch { confirms = cs })
with_confirms ch none = stuck

-- An ack or a nack of one publishing or of all up to it.
unfoldable pub settle : Channel → ℕ → Bool → Bool → Step Channel
settle ch tag many ack =
    let c : Confirmation = record { delivery_tag = tag; ack = ack } in
    if ch.confirming
    then with_confirms ch (if many then multiple c ch.confirms else one c ch.confirms)
    else went ch

-- The consumer of a tag is made when its first delivery comes.
unfoldable pub ensure_consumer : Bytes → Consumers → Called Consumers
ensure_consumer tag cs = elim (find tag cs.chans) [ none ↦ add tag cs | some i ↦ returned cs ]

unfoldable pub deliver_to : Channel → Bytes → Delivery → Called Consumers → Step Channel
deliver_to ch tag d (returned cs) = with_found ch (send tag d cs)
deliver_to ch tag d panicked = crashed

unfoldable pub deliver : Channel → BasicDeliver → Step Channel
deliver ch m =
    deliver_to ch m.consumer_tag (deliver_delivery ch.id m)
      (ensure_consumer m.consumer_tag ch.consumers)

-- `ch.rpc <- msg`, if there is such a channel.
unfoldable pub to_rpc : Channel → Option Message → Channel
to_rpc ch msg = record ch { rpc = Option.map (λ log. log ++ msg ∷ []) ch.rpc }

-- `Channel.send` sends nothing and `closeChannel` does nothing.
unfoldable pub dispatch : Channel → Message → Step Channel
dispatch ch (channel_close m) = went ch
dispatch ch (channel_flow m) = went (record ch { flows = broadcast m.active ch.flows })
dispatch ch (basic_cancel m) =
    with_found (record ch { cancels = broadcast m.consumer_tag ch.cancels })
      (cancel m.consumer_tag ch.consumers)
dispatch ch (basic_return m) = went (record ch { returns = broadcast (new_return m) ch.returns })
dispatch ch (basic_ack m) = settle ch m.delivery_tag m.multiple true
dispatch ch (basic_nack m) = settle ch m.delivery_tag m.multiple false
dispatch ch (basic_deliver m) = deliver ch m
dispatch ch msg = went (to_rpc ch (some msg))
