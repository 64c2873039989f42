-- ===== src/Amqp/Confirms.antt =====
-- confirms.go: confirmations of publishings, brought into the order of their delivery tags.
pub mod Notified
pub mod Order
pub mod Arrivals
use gitbook_golang.Prelude.{
  ℕ, zero, suc, ◌+◌, ◌-◌, ◌%◌, ◌^◌, Bool, Option, none, some, List, [], ◌∷◌, ◌++◌, map, leb, ◌==◌,
  if◌then◌else◌,
}

pub record Confirmation : Type 0 where
  pub delivery_tag : ℕ
  pub ack : Bool

-- A listener is what has been sent on its channel. The sequencer is a map.
pub record Confirms : Type 0 where
  pub listeners : List (List Confirmation)
  pub sequencer : ℕ → Option Confirmation
  pub published : ℕ
  pub expecting : ℕ

unfoldable pub new_confirms : Confirms
new_confirms = record { listeners = []; sequencer = λ tag. none; published = 0; expecting = 1 }

-- `uint64` addition of 1.
abbrev pub next : ℕ → ℕ
next n = (n + 1) % 2 ^ 64

unfoldable pub update :
    (ℕ → Option Confirmation) → ℕ → Option Confirmation → ℕ → Option Confirmation
update m k v j = if j == k then v else m j

unfoldable pub listen : Confirms → Confirms
listen s = record s { listeners = s.listeners ++ [] ∷ [] }

unfoldable pub publish : Confirms → Confirms × ℕ
publish s = (record s { published = next s.published }, next s.published)

unfoldable pub confirm : Confirmation → Confirms → Confirms
confirm c s = record s {
  sequencer = update s.sequencer s.expecting none;
  expecting = next s.expecting;
  listeners = map (λ sent. sent ++ c ∷ []) s.listeners;
}

-- The loops return `none` where they do not end within the fuel.
unfoldable pub resequence_loop : ℕ → Confirms → Option Confirms
resequence_loop zero s = if leb s.expecting s.published then none else some s
resequence_loop (suc f) s =
    let found = s.sequencer s.expecting in
    let again = λ (c : Confirmation). resequence_loop f (confirm c s) in
    if leb s.expecting s.published then elim found [ none ↦ some s | some c ↦ again c ] else some s

-- Each round takes one tag of those up to `published`.
unfoldable pub resequence : Confirms → Option Confirms
resequence s = resequence_loop (s.published + 1 - s.expecting) s

unfoldable pub one : Confirmation → Confirms → Option Confirms
one c s =
    if s.expecting == c.delivery_tag
    then resequence (confirm c s)
    else resequence (record s { sequencer = update s.sequencer c.delivery_tag (some c) })

unfoldable pub multiple_loop : ℕ → ℕ → Bool → Confirms → Option Confirms
multiple_loop zero tag ack s = if leb s.expecting tag then none else some s
multiple_loop (suc f) tag ack s =
    let again =
      multiple_loop f tag ack (confirm (record { delivery_tag = s.expecting; ack = ack }) s) in
    if leb s.expecting tag then again else some s

-- Each round takes one tag of those up to the confirmed one.
unfoldable pub multiple : Confirmation → Confirms → Option Confirms
multiple c s = elim (multiple_loop (c.delivery_tag + 1 - s.expecting) c.delivery_tag c.ack s) [
  | none ↦ none
  | some t ↦ resequence t
]

-- The listeners' channels are closed, and the list is dropped.
unfoldable pub close : Confirms → Confirms
close s = record s { listeners = [] }
