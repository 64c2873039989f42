-- ===== src/Amqp/Confirms/Order.antt =====
-- What the listeners get from `One` and `Multiple` (confirms.go).
use gitbook_golang.Prelude.{
  ℕ, zero, suc, ◌+◌, ◌-◌, ◌^◌, ◌≤◌, ◌<◌, ◌≡◌, refl, ◌∙◌, inl, inr, Bool, false, Option, none, some,
  arith, leb, ◌==◌, if◌then◌else◌, leb→le, Bool-cases,
}
use gitbook_golang.Amqp.Confirms.{
  Confirmation, Confirms, update, confirm, resequence, one, multiple_loop, multiple,
}
use gitbook_golang.Amqp.Confirms.Notified.{
  IsKeyed, Notified, confirm-IsKeyed, confirm-later, fields-confirm, confirm-Agrees,
  Notified-confirm, Settles-confirm, resequence-Settles,
}
use gitbook_golang.Amqp.Delivery.Settle.{ack}

file-IsKeyed :
    (c : Confirmation) (s : Confirms)
    → IsKeyed s
    → IsKeyed (record s { sequencer = update s.sequencer c.delivery_tag (some c) })
unfolding update
file-IsKeyed c s h = record { key = λ tag d e. ground (arith, h.key tag d) }

-- What `Notified` says does not depend on the sequencer that the run started from.
Notified-filed :
    {heard : ℕ → Option Confirmation} (m : ℕ → Option Confirmation) (s t : Confirms)
    → Notified heard (record s { sequencer = m }) t
    → Notified heard s t
Notified-filed m s t n = record {
  sent = n.sent;
  drawn = n.drawn;
  consecutive = n.consecutive;
  listeners = n.listeners;
  expecting = n.expecting;
  published = n.published;
  waits = n.waits;
  kept = n.kept;
  keyed = n.keyed;
}

-- What is known after `c` has come.
abbrev pub with_one : Confirmation → Confirms → ℕ → Option Confirmation
with_one c s tag = if tag == c.delivery_tag then some c else s.sequencer tag

-- With counters below 2^64 - 1 and a sequencer filed by tags: `One` returns, and with the confirmation
-- and those of the sequencer as what is known, every listener gets what is known of the expected tag
-- and the following ones, in the order of the tags and without a gap, up to one past the
-- published ones or one of which nothing is known; what is known of that and of later tags is
-- kept.
pub one-Notified :
    (c : Confirmation) (s : Confirms)
    → s.published < 2 ^ 64 - 1
    → s.expecting < 2 ^ 64 - 1
    → IsKeyed s
    → (t : Confirms) × (one c s ≡ some t) × Notified (with_one c s) s t
unfolding one update
one-Notified c s small expected k = elim (Bool-cases (s.expecting == c.delivery_tag)) [
  | inl now ↦
      let same = fields-confirm c s expected in
      let at : c.delivery_tag ≡ s.expecting = ground arith in
      let here : with_one c s s.expecting ≡ some c = ground arith in
      rw now (
        Settles-confirm c s _ here at expected (
          resequence-Settles (with_one c s) (confirm c s) (omega arith) (confirm-IsKeyed c s k)
            (confirm-Agrees (with_one c s) c s expected (λ tag lt. ground arith))))
  | inr later ↦
      let (t, e, n) =
        resequence-Settles (with_one c s)
          (record s { sequencer = update s.sequencer c.delivery_tag (some c) }) small
          (file-IsKeyed c s k) (λ tag le. refl) in
      rw later (t, e, Notified-filed _ s t n)
]

-- The confirmation of a tag that `Multiple` makes.
abbrev covering : ℕ → Bool → Confirmation
covering tag ack = record { delivery_tag = tag; ack = ack }

-- The loop of `Multiple` and what follows it.
multiple_loop-Settles :
    (heard : ℕ → Option Confirmation) (f tag : ℕ) (ack : Bool) (s : Confirms)
    → tag < 2 ^ 64 - 1
    → s.published < 2 ^ 64 - 1
    → tag < f + s.expecting
    → IsKeyed s
    → ((u : ℕ) → s.expecting ≤ u → u ≤ tag → heard u ≡ some (covering u ack))
    → ((u : ℕ) → s.expecting ≤ u → tag < u → s.sequencer u ≡ heard u)
    → (t : Confirms) × (elim (multiple_loop f tag ack s) [ none ↦ none | some u ↦ resequence u ]
        ≡ some t)
      × Notified heard s t
      × (tag < t.expecting)
unfolding multiple_loop
multiple_loop-Settles heard zero tag ack s last small enough k covered rest =
    let over : leb s.expecting tag ≡ false = ground arith in
    let (t, e, n) = resequence-Settles heard s small k (λ u le. rest u le (omega arith)) in
    rw over (t, e, n, omega (arith, n.expecting))
multiple_loop-Settles heard (suc f) tag ack s last small enough k covered rest =
    elim (Bool-cases (leb s.expecting tag)) [
      | inl more ↦
          let le = leb→le s.expecting tag more in
          let c = covering s.expecting ack in
          let same = fields-confirm c s (omega arith) in
          let (t, e, n, past) =
            multiple_loop-Settles heard f tag ack (confirm c s) last (omega arith) (omega arith)
              (confirm-IsKeyed c s k) (λ u from to. covered u (omega arith) to)
              (λ u from lt. confirm-later c s u (omega arith) ∙ rest u (omega arith) lt) in
          let known = covered s.expecting (omega arith) le in
          rw more (t, e, Notified-confirm c s t known refl (omega arith) n, past)
      | inr over ↦
          let lt : tag < s.expecting = ground arith in
          let (t, e, n) = resequence-Settles heard s small k (λ u le. rest u le (omega arith)) in
          rw over (t, e, n, omega (arith, n.expecting))
    ]

-- What is known after `c` has come for its tag and all before it.
abbrev pub with_multiple : Confirmation → Confirms → ℕ → Option Confirmation
with_multiple c s tag =
    if leb tag c.delivery_tag
    then some (record { delivery_tag = tag; ack = c.ack })
    else s.sequencer tag

-- With a tag and a counter below 2^64 - 1 and a sequencer filed by tags: `Multiple` returns, and with
-- its ack for each tag up to the confirmed one and the sequencer for later ones as what is known,
-- every listener gets what is known of the expected tag and the following ones, in the order of the
-- tags and without a gap, up to one past the published ones or one of which nothing is known;
-- what is known of that and of later tags is kept; and the next expected tag is past the
-- confirmed one.
pub multiple-Notified :
    (c : Confirmation) (s : Confirms)
    → c.delivery_tag < 2 ^ 64 - 1
    → s.published < 2 ^ 64 - 1
    → IsKeyed s
    → (t : Confirms) × (multiple c s ≡ some t)
      × Notified (with_multiple c s) s t
      × (c.delivery_tag < t.expecting)
unfolding multiple
multiple-Notified c s last small k =
    multiple_loop-Settles (with_multiple c s) _ c.delivery_tag c.ack s last small (omega arith) k
      (λ u from to. ground arith) (λ u from lt. ground arith)
