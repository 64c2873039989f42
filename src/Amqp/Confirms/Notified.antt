-- ===== src/Amqp/Confirms/Notified.antt =====
-- What the listeners get while confirmations are resequenced (confirms.go).
use gitbook_golang.Prelude.{
  ℕ, zero, suc, ◌+◌, ◌-◌, ◌^◌, ◌≤◌, ◌<◌, ◌≡◌, refl, sym, ap, ◌∙◌, ◌⊎◌, inl, inr, Option, none, some,
  List, [], ◌∷◌, ◌++◌, map, append_assoc, append-nil, arith, leb, leb→le, Bool-cases, length,
}
use gitbook_golang.Amqp.Confirms.{
  Confirmation, Confirms, next, update, confirm, resequence_loop, resequence,
}

-- An entry of the sequencer is filed under its own tag.
pub record IsKeyed (s : Confirms) : Type 0 where
  pub key : (tag : ℕ) (c : Confirmation) → s.sequencer tag ≡ some c → c.delivery_tag ≡ tag

-- The tags are n, n + 1, n + 2 and so on.
abbrev pub Consecutive : ℕ → List Confirmation → Type 0
Consecutive n [] = Unit {0}
Consecutive n (c ∷ cs) = (c.delivery_tag ≡ n) × Consecutive (n + 1) cs

-- The entries of a map from `n` on, one for each tag and without a gap.
abbrev pub Drawn : (ℕ → Option Confirmation) → ℕ → List Confirmation → Type 0
Drawn heard n [] = Unit {0}
Drawn heard n (c ∷ cs) = (heard n ≡ some c) × Drawn heard (n + 1) cs

-- `heard` is what is known of each tag from the expected one on. Every listener has been sent `sent`,
-- which is what is known of the tags from the expected one up to the next expected one; of that one
-- nothing is known, or it was not published; and what is known of it and of later tags is kept.
pub record Notified (heard : ℕ → Option Confirmation) (s t : Confirms) : Type 0 where
  pub sent : List Confirmation
  pub drawn : Drawn heard s.expecting sent
  pub consecutive : Consecutive s.expecting sent
  pub listeners : t.listeners ≡ map (λ log. log ++ sent) s.listeners
  pub expecting : t.expecting ≡ s.expecting + length sent
  pub published : t.published ≡ s.published
  pub waits : (t.published < t.expecting) ⊎ (heard t.expecting ≡ none)
  pub kept : (tag : ℕ) → t.expecting ≤ tag → t.sequencer tag ≡ heard tag
  pub keyed : IsKeyed t

-- The sequencer holds what is known from the expected tag on.
abbrev pub Agrees : (ℕ → Option Confirmation) → Confirms → Type 0
Agrees heard s = (tag : ℕ) → s.expecting ≤ tag → s.sequencer tag ≡ heard tag

pub confirm-IsKeyed : (c : Confirmation) (s : Confirms) → IsKeyed s → IsKeyed (confirm c s)
unfolding confirm update
confirm-IsKeyed c s h = record { key = λ tag d e. ground (arith, h.key tag d) }

-- The entries past the expected one are left.
pub confirm-later :
    (c : Confirmation) (s : Confirms) (tag : ℕ)
    → s.expecting < tag
    → (confirm c s).sequencer tag ≡ s.sequencer tag
unfolding confirm update
confirm-later c s tag lt = ground arith

pub fields-confirm :
    (c : Confirmation) (s : Confirms)
    → s.expecting < 2 ^ 64 - 1
    → ((confirm c s).expecting ≡ s.expecting + 1) × ((confirm c s).published ≡ s.published)
unfolding confirm
fields-confirm c s h = (omega arith, refl)

-- If the sequencer agrees past the expected tag, it agrees when that tag is confirmed.
pub confirm-Agrees :
    (heard : ℕ → Option Confirmation) (c : Confirmation) (s : Confirms)
    → s.expecting < 2 ^ 64 - 1
    → ((tag : ℕ) → s.expecting < tag → s.sequencer tag ≡ heard tag)
    → Agrees heard (confirm c s)
confirm-Agrees heard c s small a tag le =
    let same = fields-confirm c s small in confirm-later c s tag (omega arith) ∙ a tag (omega arith)

map-nothing : (logs : List (List Confirmation)) → logs ≡ map (λ log. log ++ []) logs
map-nothing [] = refl
map-nothing (log ∷ logs) = rw append-nil (ap (λ rest. log ∷ rest) (map-nothing logs))

map-more :
    (c : Confirmation) (cs : List Confirmation) (logs : List (List Confirmation))
    → map (λ log. log ++ cs) (map (λ log. log ++ c ∷ []) logs) ≡ map (λ log. log ++ c ∷ cs) logs
map-more c cs [] = refl
map-more c cs (log ∷ logs) = rw (append_assoc, map-more c cs logs)

pub Notified-confirm :
    {heard : ℕ → Option Confirmation} (c : Confirmation) (s t : Confirms)
    → heard s.expecting ≡ some c
    → c.delivery_tag ≡ s.expecting
    → s.expecting < 2 ^ 64 - 1
    → Notified heard (confirm c s) t
    → Notified heard s t
unfolding confirm
Notified-confirm c s t known e small n =
    let no_wrap : next s.expecting ≡ s.expecting + 1 = omega arith in
    record {
      sent = c ∷ n.sent;
      drawn = (known, rw no_wrap at n.drawn);
      consecutive = (e, rw no_wrap at n.consecutive);
      listeners = n.listeners ∙ map-more c n.sent s.listeners;
      expecting = omega (arith, n.expecting, no_wrap);
      published = n.published;
      waits = n.waits;
      kept = n.kept;
      keyed = n.keyed;
    }

Notified-here :
    {heard : ℕ → Option Confirmation} (s : Confirms)
    → IsKeyed s
    → Agrees heard s
    → (s.published < s.expecting) ⊎ (heard s.expecting ≡ none)
    → Notified heard s s
Notified-here s k a w = record {
  sent = [];
  drawn = tt;
  consecutive = tt;
  listeners = map-nothing s.listeners;
  expecting = omega arith;
  published = refl;
  waits = w;
  kept = a;
  keyed = k;
}

abbrev pub Settles : (ℕ → Option Confirmation) → Confirms → Option Confirms → Type 0
Settles heard s r = (t : Confirms) × (r ≡ some t) × Notified heard s t

-- One round: the expected confirmation is at hand.
pub Settles-confirm :
    {heard : ℕ → Option Confirmation} (c : Confirmation) (s : Confirms) (r : Option Confirms)
    → heard s.expecting ≡ some c
    → c.delivery_tag ≡ s.expecting
    → s.expecting < 2 ^ 64 - 1
    → Settles heard (confirm c s) r
    → Settles heard s r
Settles-confirm c s r known e small (t, same, n) = (t, same, Notified-confirm c s t known e small n)

resequence_round :
    {heard : ℕ → Option Confirmation} (f : ℕ) (s : Confirms) (o : Option Confirmation)
    → ((c : Confirmation)
        → s.sequencer s.expecting ≡ some c
        → Settles heard (confirm c s) (resequence_loop f (confirm c s)))
    → IsKeyed s
    → Agrees heard s
    → s.expecting < 2 ^ 64 - 1
    → s.sequencer s.expecting ≡ o
    → Settles heard s (elim o [ none ↦ some s | some c ↦ resequence_loop f (confirm c s) ])
resequence_round f s none ih k a small e =
    (s, refl, Notified-here s k a (inr (sym (a s.expecting (omega arith)) ∙ e)))
resequence_round f s (some c) ih k a small e =
    Settles-confirm c s _ (sym (a s.expecting (omega arith)) ∙ e) (k.key s.expecting c e) small
      (ih c e)

resequence_loop-Settles :
    (heard : ℕ → Option Confirmation) (f : ℕ) (s : Confirms)
    → s.published < 2 ^ 64 - 1
    → s.published < f + s.expecting
    → IsKeyed s
    → Agrees heard s
    → Settles heard s (resequence_loop f s)
unfolding resequence_loop
resequence_loop-Settles heard zero s small enough k a =
    (s, ground arith, Notified-here s k a (inl (omega arith)))
resequence_loop-Settles heard (suc f) s small enough k a =
    elim (Bool-cases (leb s.expecting s.published)) [
      | inl more ↦
          let le = leb→le s.expecting s.published more in
          rw more (
            resequence_round f s (s.sequencer s.expecting)
              (λ c e.
                let same = fields-confirm c s (omega arith) in
                resequence_loop-Settles heard f (confirm c s) (omega arith) (omega arith)
                  (confirm-IsKeyed c s k)
                  (confirm-Agrees heard c s (omega arith) (λ tag lt. a tag (omega arith))))
              k a (omega arith) refl)
      | inr over ↦ rw over (s, refl, Notified-here s k a (inl (ground arith)))
    ]

pub resequence-Settles :
    (heard : ℕ → Option Confirmation) (s : Confirms)
    → s.published < 2 ^ 64 - 1
    → IsKeyed s
    → Agrees heard s
    → Settles heard s (resequence s)
unfolding resequence
resequence-Settles heard s small k a = resequence_loop-Settles heard _ s small (omega arith) k a
