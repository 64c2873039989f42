-- ===== src/Amqp/Channel/Reassembly.antt =====
-- Frames put together: a method with content, its header, and its body in any number of pieces.
use gitbook_golang.Prelude.{
  ℕ, ◌^◌, ◌≤◌, ◌<◌, ◌≡◌, refl, ◌∙◌, true, false, some, List, [], ◌∷◌, ◌++◌, append_assoc, arith,
  leb, ◌==◌, le→leb, length, length-append,
}
use gitbook_golang.Amqp.Channel.{
  Expect, recv_method, recv_header, recv_content, Channel, Step, went, crashed, stuck, dispatch,
}
use gitbook_golang.Amqp.Channel.Recv.{
  transition, accept_method, on_method, complete, on_header, collect, on_content, by_state, recv,
  and_recv_all, recv_all,
}
use gitbook_golang.Amqp.Frame.{
  MethodFrame, HeaderFrame, Frame, method_frame, header_frame, body_frame,
}
use gitbook_golang.Amqp.Properties.{Properties}
use gitbook_golang.Amqp.Spec.Message.{
  Message, basic_publish, basic_return, basic_deliver, basic_get_ok, get_content, set_content,
  has_content,
}
use gitbook_golang.Amqp.Spec.Message.Kinds.{message_id}
use gitbook_golang.Amqp.Wire.{Bytes}

-- The pieces together, in their order.
abbrev pub joined : List Bytes → Bytes
joined [] = []
joined (p ∷ ps) = p ++ joined ps

-- The body frames of the pieces `ps` and of the last one.
abbrev pub body_frames : ℕ → List Bytes → Bytes → List Frame
body_frames id [] last = body_frame (record { channel_id = id; body = last }) ∷ []
body_frames id (p ∷ ps) last =
    body_frame (record { channel_id = id; body = p }) ∷ body_frames id ps last

-- A channel in the middle of a content.
abbrev pub collecting : Channel → Message → HeaderFrame → Bytes → Channel
collecting ch msg h b = record ch {
  recv = recv_content;
  message = some msg;
  header = some h;
  body = b;
}

and_recv_all-went : (s : Step Channel) → and_recv_all s went ≡ s
unfolding and_recv_all
and_recv_all-went (went ch) = refl
and_recv_all-went crashed = refl
and_recv_all-went stuck = refl

-- One piece that does not fill the size.
collect-part :
    (ch : Channel) (id : ℕ) (msg : Message) (h : HeaderFrame) (b p : Bytes)
    → h.size < 2 ^ 63
    → length (b ++ p) < h.size
    → recv (collecting ch msg h b) (body_frame (record { channel_id = id; body = p }))
      ≡ went (collecting ch msg h (b ++ p))
unfolding recv by_state on_content collect transition
collect-part ch id msg h b p lt few =
    let small : leb (2 ^ 63) h.size ≡ false = ground arith in
    let more : leb h.size (length (b ++ p)) ≡ false = ground arith in rw (small, more) refl

-- The piece that fills it.
collect-last :
    (ch : Channel) (id : ℕ) (msg : Message) (h : HeaderFrame) (b p : Bytes)
    → h.size < 2 ^ 63
    → h.size ≤ length (b ++ p)
    → recv (collecting ch msg h b) (body_frame (record { channel_id = id; body = p }))
      ≡ complete (collecting ch msg h (b ++ p)) (some msg) (some h)
unfolding recv by_state on_content collect
collect-last ch id msg h b p lt full =
    let small : leb (2 ^ 63) h.size ≡ false = ground arith in
    rw (small, le→leb h.size (length (b ++ p)) full) refl

-- Body frames whose pieces but the last do not fill the size, and with the last one do.
collect-all :
    (ch : Channel) (id : ℕ) (msg : Message) (h : HeaderFrame) (b : Bytes) (ps : List Bytes)
    (last : Bytes)
    → h.size < 2 ^ 63
    → length (b ++ joined ps) < h.size
    → h.size ≤ length (b ++ (joined ps ++ last))
    → recv_all (collecting ch msg h b) (body_frames id ps last)
      ≡ complete (collecting ch msg h (b ++ (joined ps ++ last))) (some msg) (some h)
unfolding recv_all and_recv_all
collect-all ch id msg h b [] last lt few full =
    rw (collect-last ch id msg h b last lt full) (and_recv_all-went _)
collect-all ch id msg h b (p ∷ ps) last lt few full =
    let short : length (b ++ p) < h.size = grind (arith, length-append) in
    let part' : length ((b ++ p) ++ joined ps) < h.size = grind (arith, length-append) in
    let full' : h.size ≤ length ((b ++ p) ++ (joined ps ++ last)) = grind (arith, length-append) in
    let same : (b ++ p) ++ (joined ps ++ last) ≡ b ++ ((p ++ joined ps) ++ last) =
      simp append_assoc in
    rw (collect-part ch id msg h b p lt short)
      (collect-all ch id msg h (b ++ p) ps last lt part' full' ∙ rw same refl)

-- A method is handled alike in every state.
by_state-method :
    (e : Expect) (ch : Channel) (f : MethodFrame)
    → by_state e ch (method_frame f) ≡ accept_method ch f.method
unfolding by_state on_method on_header on_content
by_state-method recv_method ch f = refl
by_state-method recv_header ch f = refl
by_state-method recv_content ch f = refl

recv-method :
    (ch : Channel) (f : MethodFrame) (msg : Message)
    → f.method ≡ some msg
    → has_content msg ≡ true
    → recv ch (method_frame f)
      ≡ went (record ch { body = []; message = some msg; recv = recv_header })
unfolding recv accept_method transition
recv-method ch f msg e c = by_state-method ch.recv ch f ∙ rw (e, c) refl

recv-header :
    (ch : Channel) (msg : Message) (h : HeaderFrame)
    → 0 < h.size
    → recv (record ch { body = []; message = some msg; recv = recv_header }) (header_frame h)
      ≡ went (collecting ch msg h [])
unfolding recv by_state on_header transition
recv-header ch msg h pos = let some_body : (h.size == 0) ≡ false = ground arith in rw some_body refl

-- In whatever state the channel is, the last body frame completes the content.
pub recv_all-complete :
    (ch : Channel) (f : MethodFrame) (msg : Message) (h : HeaderFrame) (id : ℕ) (ps : List Bytes)
    (last : Bytes)
    → f.method ≡ some msg
    → has_content msg ≡ true
    → h.size < 2 ^ 63
    → length (joined ps) < h.size
    → h.size ≤ length (joined ps ++ last)
    → recv_all ch (method_frame f ∷ header_frame h ∷ body_frames id ps last)
      ≡ complete (collecting ch msg h (joined ps ++ last)) (some msg) (some h)
unfolding recv_all and_recv_all
recv_all-complete ch f msg h id ps last e c lt few full =
    rw (recv-method ch f msg e c, recv-header ch msg h (omega arith))
      (collect-all ch id msg h [] ps last lt few full)

-- `whole` has these properties and this body as its content, and is otherwise `msg`: it has the same id,
-- and is `msg` again when the content of `msg` is put into it.
pub record Filled (msg whole : Message) (props : Properties) (b : Bytes) : Type 0 where
  pub content : get_content whole ≡ some (props, b)
  pub same_id : message_id whole ≡ message_id msg
  pub same_fields :
      (p : Properties) × (c : Bytes) × (get_content msg ≡ some (p, c))
      × (set_content whole p c ≡ msg)

set_content-Filled :
    (msg : Message) (props : Properties) (b : Bytes)
    → has_content msg ≡ true
    → Filled msg (set_content msg props b) props b
unfolding has_content get_content set_content message_id
set_content-Filled (basic_publish m) props b e = record {
  content = refl;
  same_id = refl;
  same_fields = (m.properties, m.body, refl, refl);
}
set_content-Filled (basic_return m) props b e = record {
  content = refl;
  same_id = refl;
  same_fields = (m.properties, m.body, refl, refl);
}
set_content-Filled (basic_deliver m) props b e = record {
  content = refl;
  same_id = refl;
  same_fields = (m.properties, m.body, refl, refl);
}
set_content-Filled (basic_get_ok m) props b e = record {
  content = refl;
  same_id = refl;
  same_fields = (m.properties, m.body, refl, refl);
}
set_content-Filled _ props b e = absurd cc

-- In whatever state the channel is, a method that carries content, its header with a size below
-- 2^63, and body frames that reach that size with the last of them and not before: the channel
-- dispatches, and is then ready for the next method, a message that has the properties of the header and
-- the joined pieces as its content and is otherwise that method.
pub reassemble :
    (ch : Channel) (f : MethodFrame) (msg : Message) (h : HeaderFrame) (id : ℕ) (ps : List Bytes)
    (last : Bytes)
    → f.method ≡ some msg
    → has_content msg ≡ true
    → h.size < 2 ^ 63
    → length (joined ps) < h.size
    → h.size ≤ length (joined ps ++ last)
    → (whole : Message) × Filled msg whole h.properties (joined ps ++ last)
      × (recv_all ch (method_frame f ∷ header_frame h ∷ body_frames id ps last)
          ≡ transition recv_method (
              dispatch
                (record ch {
                  recv = recv_content;
                  message = some whole;
                  header = some h;
                  body = joined ps ++ last;
                })
                whole))
unfolding complete
reassemble ch f msg h id ps last e c lt few full = (
  set_content msg h.properties (joined ps ++ last),
  set_content-Filled msg h.properties (joined ps ++ last) c,
  recv_all-complete ch f msg h id ps last e c lt few full,
)
