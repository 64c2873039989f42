-- ===== src/Amqp/Confirms/Arrivals/Held.antt =====
-- What the state of the confirmer holds while confirmations arrive (confirms.go).
use gitbook_golang.Prelude.{
  ℕ, zero, suc, ◌+◌, ◌-◌, ◌^◌, ◌≤◌, ◌<◌, ◌≡◌, refl, sym, ap, ◌∙◌, ◌≢◌, ◌⊎◌, inl, inr, Option, none,
  some, List, [], ◌∷◌, ◌++◌, map, arith, leb, ◌==◌, leb→le, Bool-cases, length, length-append,
}
use gitbook_golang.Amqp.Confirms.{
  Confirmation, Confirms, next, update, confirm, resequence_loop, resequence, one,
}
use gitbook_golang.Amqp.Confirms.Arrivals.{
  and_ones, ones, Known, arrive, firsts, replicate, Arrivals, no_arrival, arrival,
}

-- The state holds what is known: of `p` publishings; each of the `n` listeners has got the tags up to `settled`, and the
-- sequencer has the others.
pub record Holds (p : ℕ) (r : Known) (n : ℕ) (s : Confirms) : Type 0 where
  pub settled : ℕ
  pub published : s.published ≡ p
  pub counted : s.expecting ≡ suc settled
  pub bounded : settled ≤ s.published
  pub got : s.listeners ≡ replicate n (firsts r settled)
  pub pending : (tag : ℕ) → settled < tag → s.sequencer tag ≡ r tag
  pub full : (tag : ℕ) → 0 < tag → tag ≤ settled → (c : Confirmation) × (r tag ≡ some c)

map-replicate :
    (n : ℕ) (c : Confirmation) (l : List Confirmation)
    → map (λ sent. sent ++ c ∷ []) (replicate n l) ≡ replicate n (l ++ c ∷ [])
map-replicate zero c l = refl
map-replicate (suc n) c l = ap (λ ls. (l ++ c ∷ []) ∷ ls) (map-replicate n c l)

firsts-agree :
    (r q : Known) (k : ℕ)
    → ((tag : ℕ) → 0 < tag → tag ≤ k → r tag ≡ q tag)
    → firsts r k ≡ firsts q k
unfolding firsts
firsts-agree r q zero h = refl
firsts-agree r q (suc k) h =
    rw
      (firsts-agree r q k (λ tag a b. h tag a (omega arith)), h (suc k) (omega arith) (omega arith))
      refl

-- `q` knows more than `r` at most about the expected tag.
confirm-Holds :
    {p : ℕ} (r q : Known) (n : ℕ) (s : Confirms) (c : Confirmation)
    → s.published < 2 ^ 64 - 2
    → (h : Holds p r n s) → s.expecting ≤ s.published
    → q (suc h.settled) ≡ some c
    → ((tag : ℕ) → tag ≢ suc h.settled → r tag ≡ q tag)
    → Holds p q n (confirm c s)
unfolding confirm update firsts
confirm-Holds r q n s c small h le e same =
    let k = h.settled in
    let counted = h.counted in
    let no_wrap : next s.expecting ≡ suc (suc k) = omega arith in
    let before = firsts-agree r q k (λ tag a b. same tag (λ x. omega arith)) in
    record {
      settled = suc k;
      published = h.published;
      counted = no_wrap;
      bounded = omega arith;
      got = rw (h.got, before, e) (map-replicate n c (firsts q k));
      pending = λ tag lt. ground (arith, h.pending tag (omega arith), same tag (λ x. omega arith));
      full = λ tag pos le'. elim (Bool-cases (tag == suc k)) [
        | inl y ↦ let at : tag ≡ suc k = ground arith in (c, rw at e)
        | inr other ↦
            let below : tag ≤ k = ground arith in
            let (d, f) = h.full tag pos below in (d, sym (same tag (λ x. omega arith)) ∙ f)
      ];
    }

expecting-confirm :
    (c : Confirmation) (s : Confirms)
    → s.expecting < 2 ^ 64 - 1
    → (confirm c s).expecting ≡ s.expecting + 1
unfolding confirm
expecting-confirm c s h = omega arith

-- The expected confirmation has not come.
abbrev Waits : ℕ → Known → ℕ → Confirms → Type 0
Waits p r n s = (h : Holds p r n s) × ((s.published ≤ h.settled) ⊎ (r (suc h.settled) ≡ none))

abbrev Rests : ℕ → Known → ℕ → Option Confirms → Type 0
Rests p r n o = (t : Confirms) × (o ≡ some t) × Waits p r n t

resequence_round :
    {p : ℕ} (f : ℕ) (r : Known) (n : ℕ) (s : Confirms) (o : Option Confirmation)
    → ((c : Confirmation)
        → s.sequencer s.expecting ≡ some c
        → Rests p r n (resequence_loop f (confirm c s)))
    → Holds p r n s
    → s.sequencer s.expecting ≡ o
    → Rests p r n (elim o [ none ↦ some s | some c ↦ resequence_loop f (confirm c s) ])
resequence_round f r n s none ih h e =
    let absent : s.sequencer (suc h.settled) ≡ none = rw h.counted at e in
    (s, refl, (h, inr (sym (h.pending (suc h.settled) (omega arith)) ∙ absent)))
resequence_round f r n s (some c) ih h e = ih c e

resequence_loop-Rests :
    {p : ℕ} (f : ℕ) (r : Known) (n : ℕ) (s : Confirms)
    → s.published < 2 ^ 64 - 2
    → s.published < f + s.expecting
    → Holds p r n s
    → Rests p r n (resequence_loop f s)
unfolding resequence_loop confirm
resequence_loop-Rests zero r n s small enough h =
    let counted = h.counted in (s, ground arith, (h, inl (omega arith)))
resequence_loop-Rests (suc f) r n s small enough h =
    let counted = h.counted in
    elim (Bool-cases (leb s.expecting s.published)) [
      | inr over ↦ rw over (s, refl, (h, inl (ground arith)))
      | inl more ↦
          let le = leb→le s.expecting s.published more in
          rw more (
            resequence_round f r n s (s.sequencer s.expecting)
              (λ c e.
                let known : r (suc h.settled) ≡ some c =
                  sym (h.pending (suc h.settled) (omega arith)) ∙ rw counted at e in
                let held = confirm-Holds r r n s c small h le known (λ tag x. refl) in
                let later : (confirm c s).expecting ≡ s.expecting + 1 =
                  expecting-confirm c s (omega arith) in
                resequence_loop-Rests f r n (confirm c s) small (omega arith) held)
              h refl)
    ]

resequence-Rests :
    {p : ℕ} (r : Known) (n : ℕ) (s : Confirms)
    → s.published < 2 ^ 64 - 2
    → Holds p r n s
    → Rests p r n (resequence s)
unfolding resequence
resequence-Rests r n s small h = resequence_loop-Rests _ r n s small (omega arith) h

-- A confirmation that is early is filed.
file-Holds :
    {p : ℕ} (r : Known) (n : ℕ) (s : Confirms) (c : Confirmation)
    → (h : Holds p r n s) → h.settled < c.delivery_tag
    → Holds p
        (update r c.delivery_tag (some c))
        n
        (record s { sequencer = update s.sequencer c.delivery_tag (some c) })
unfolding update
file-Holds r n s c h lt = record {
  settled = h.settled;
  published = h.published;
  counted = h.counted;
  bounded = h.bounded;
  got =
      h.got
      ∙ ap (λ l. replicate n l)
          (firsts-agree r (update r c.delivery_tag (some c)) h.settled (λ tag a b. ground arith));
  pending = λ tag le. ground (arith, h.pending tag le);
  full = λ tag pos le. let (d, f) = h.full tag pos le in (d, ground arith);
}

one-Rests :
    {p : ℕ} (c : Confirmation) (r : Known) (n : ℕ) (s : Confirms)
    → s.published < 2 ^ 64 - 2
    → Holds p r n s
    → 0 < c.delivery_tag
    → c.delivery_tag ≤ s.published
    → r c.delivery_tag ≡ none
    → Rests p (update r c.delivery_tag (some c)) n (one c s)
unfolding one confirm
one-Rests c r n s small h pos le new =
    let tag = c.delivery_tag in
    let q = update r tag (some c) in
    let counted = h.counted in
    elim (Bool-cases (s.expecting == tag)) [
      | inl now ↦
          let at : tag ≡ suc h.settled = ground arith in
          let here : q (suc h.settled) ≡ some c = unfold update in ground arith in
          let same : (t : ℕ) → t ≢ suc h.settled → r t ≡ q t =
            λ t x. unfold update in ground arith in
          rw now (
            resequence-Rests q n (confirm c s) small
              (confirm-Holds r q n s c small h (omega arith) here same))
      | inr early ↦
          let later : h.settled < tag = elim (Bool-cases (leb tag h.settled)) [
            | inl old ↦ let (d, f) = h.full tag pos (leb→le tag h.settled old) in absurd cc
            | inr past ↦ ground arith
          ] in
          rw early (resequence-Rests q n _ small (file-Holds r n s c h later))
    ]

pub ones-Rests :
    (p : ℕ) (cs : List Confirmation) (r : Known) (n : ℕ) (s : Confirms)
    → p < 2 ^ 64 - 2
    → Waits p r n s
    → Arrivals p r cs
    → (t : Confirms) × (ones cs s ≡ some t) × Waits p (arrive cs r) n t
unfolding ones and_ones arrive
ones-Rests p [] r n s small w no_arrival = (s, refl, w)
ones-Rests p (c ∷ cs) r n s small w (arrival pos le new rest) =
    let published = w.0.published in
    let (m, e, v) = one-Rests c r n s (omega arith) w.0 pos (omega arith) new in
    let (t, f, u) = ones-Rests p cs (update r c.delivery_tag (some c)) n m small v rest in
    (t, rw e f, u)

-- A new state with `n` listeners, after `p` publishings.
abbrev pub after_publishing : ℕ → ℕ → Confirms
after_publishing n p = record {
  listeners = replicate n [];
  sequencer = λ tag. none;
  published = p;
  expecting = 1;
}

pub after_publishing-Waits : (n p : ℕ) → Waits p (λ tag. none) n (after_publishing n p)
unfolding firsts
after_publishing-Waits n p = (
  record {
    settled = 0;
    published = refl;
    counted = refl;
    bounded = omega arith;
    got = refl;
    pending = λ tag lt. refl;
    full = λ tag pos le. absurd (omega arith);
  },
  inr refl,
)

pub length-firsts :
    (r : Known) (k : ℕ)
    → ((tag : ℕ) → 0 < tag → tag ≤ k → (c : Confirmation) × (r tag ≡ some c))
    → length (firsts r k) ≡ k
unfolding firsts
length-firsts r zero h = refl
length-firsts r (suc k) h =
    let (c, e) = h (suc k) (omega arith) (omega arith) in
    rw e (
      omega (
        arith,
        length-append (firsts r k) (c ∷ []),
        length-firsts r k (λ tag pos le. h tag pos (omega arith)),
      ))
