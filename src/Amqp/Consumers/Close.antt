-- ===== src/Amqp/Consumers/Close.antt =====
-- `close` on the consumers, after any sequence of calls (consumers.go).
use gitbook_golang.Prelude.{
  ℕ, ◌≡◌, refl, ap, inl, inr, true, false, none, some, List, [], ◌∷◌, arith, Bool-cases, bytes_eq,
  bytes_eq_refl,
}
use gitbook_golang.Amqp.Consumers.{
  close, Consumers, find, delete, set_feed, returned, close_feed, open_feed, and_close, close_all,
}
use gitbook_golang.Amqp.Consumers.Safe.{IsOpen, find-delete, closed_at, closed_at-IsOpen}
use gitbook_golang.Amqp.Wire.{Bytes}

-- No tag stands twice in the map.
pub data Tidy : List (Bytes × ℕ) → Type 0 where
  tidy_nil : Tidy []
  tidy_cons :
      {tag : Bytes} {i : ℕ} {m : List (Bytes × ℕ)}
      → find tag m ≡ none
      → Tidy m
      → Tidy ((tag, i) ∷ m)

delete-Tidy : (tag : Bytes) (m : List (Bytes × ℕ)) → Tidy m → Tidy (delete tag m)
unfolding delete
delete-Tidy tag [] tidy_nil = tidy_nil
delete-Tidy tag ((k, i) ∷ m) (tidy_cons f t) = elim (Bool-cases (bytes_eq k tag)) [
  | inl b ↦ rw b (delete-Tidy tag m t)
  | inr b ↦
      let absent : find k (delete tag m) ≡ none = ground (arith, find-delete tag k m) in
      rw b (tidy_cons absent (delete-Tidy tag m t))
]

delete-absent : (tag : Bytes) (m : List (Bytes × ℕ)) → find tag m ≡ none → delete tag m ≡ m
unfolding delete find
delete-absent tag [] h = refl
delete-absent tag ((k, i) ∷ m) h = elim (Bool-cases (bytes_eq k tag)) [
  | inl b ↦ absurd (ground (arith))
  | inr b ↦ rw b (ap (λ n. (k, i) ∷ n) (delete-absent tag m (rw b at h)))
]

-- The channels of the entries are closed.
pub data AllClosed (s : Consumers) : List (Bytes × ℕ) → Type 0 where
  none_closed : AllClosed s []
  one_closed :
      {tag : Bytes} {i : ℕ} {m : List (Bytes × ℕ)}
      → (s.feeds i).closed ≡ true
      → AllClosed s m
      → AllClosed s ((tag, i) ∷ m)

-- A channel that is closed stays closed.
abbrev StillClosed : Consumers → Consumers → Type 0
StillClosed s t = (i : ℕ) → (s.feeds i).closed ≡ true → (t.feeds i).closed ≡ true

closed_at-closes :
    (tag : Bytes) (i : ℕ) (s : Consumers) → ((closed_at tag i s).feeds i).closed ≡ true
unfolding set_feed
closed_at-closes tag i s = ground arith

closed_at-StillClosed : (tag : Bytes) (i : ℕ) (s : Consumers) → StillClosed s (closed_at tag i s)
unfolding set_feed
closed_at-StillClosed tag i s j h = ground arith

first-found : (tag : Bytes) (i : ℕ) (m : List (Bytes × ℕ)) → find tag ((tag, i) ∷ m) ≡ some i
unfolding find
first-found tag i m = rw (bytes_eq_refl tag) refl

delete-first :
    (tag : Bytes) (i : ℕ) (m : List (Bytes × ℕ)) → find tag m ≡ none → delete tag ((tag, i) ∷ m) ≡ m
unfolding delete
delete-first tag i m h = rw (bytes_eq_refl tag) (delete-absent tag m h)

close_feed-closed_at :
    (tag : Bytes) (i : ℕ) (s : Consumers)
    → IsOpen s
    → find tag s.chans ≡ some i
    → close_feed i (record s { chans = delete tag s.chans }) ≡ returned (closed_at tag i s)
unfolding close_feed
close_feed-closed_at tag i s h e = rw (h.live tag i e) refl

close_all-lem :
    (m : List (Bytes × ℕ)) (s : Consumers)
    → IsOpen s
    → s.chans ≡ m
    → Tidy m
    → (t : Consumers) × (close_all m s ≡ returned t)
      × (t.chans ≡ [])
      × StillClosed s t
      × AllClosed t m
unfolding close_all and_close
close_all-lem [] s h e tidy_nil = (s, refl, e, λ i c. c, none_closed)
close_all-lem ((tag, i) ∷ m) s h e (tidy_cons f k) =
    let at : find tag s.chans ≡ some i = rw e (first-found tag i m) in
    let left : (closed_at tag i s).chans ≡ m = rw e (delete-first tag i m f) in
    let (t, r, none_left, still, all) =
      close_all-lem m (closed_at tag i s) (closed_at-IsOpen tag i s h at) left k in
    (
      t,
      rw (close_feed-closed_at tag i s h at) r,
      none_left,
      λ j c. still j (closed_at-StillClosed tag i s j c),
      one_closed (still i (closed_at-closes tag i s)) all,
    )

-- On consumers whose channels are open, with no tag twice in the map, the first `close` does not panic:
-- it closes the channel of every entry, each once, and leaves no entry.
pub close-AllClosed :
    (s : Consumers)
    → IsOpen s
    → Tidy s.chans
    → s.closed ≡ false
    → (t : Consumers) × (close s ≡ returned t) × (t.chans ≡ []) × AllClosed t s.chans
unfolding close
close-AllClosed s h k c =
    let open_still : IsOpen (record s { closed = true }) = record {
      live = h.live;
      made = h.made;
      single = h.single;
    } in
    let (t, r, none_left, still, all) =
      close_all-lem s.chans (record s { closed = true }) open_still refl k in
    (t, rw c r, none_left, all)

-- A new channel for a tag leaves no tag twice.
pub open_feed-Tidy : (tag : Bytes) (s : Consumers) → Tidy s.chans → Tidy (open_feed tag s).chans
unfolding open_feed
open_feed-Tidy tag s t =
    let absent : find tag (delete tag s.chans) ≡ none =
      rw (find-delete tag tag s.chans, bytes_eq_refl tag) refl in
    tidy_cons absent (delete-Tidy tag s.chans t)
