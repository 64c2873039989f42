-- ===== src/Amqp/Spec/Message/Ids.antt =====
-- `parseMethodFrame` (spec091.go) gives a struct of the class and the number that it has read.
use gitbook_golang.Prelude.{ℕ, ◌≡◌, sym, ap, subst, ◌∙◌, ◌==◌, if◌then◌else◌}
use gitbook_golang.Amqp.Spec.Message.{Message}
use gitbook_golang.Amqp.Spec.Message.Kinds.{message_id}
use gitbook_golang.Amqp.Spec.Message.Read.{
  read_connection_method, read_channel_method, read_exchange_method, read_queue_method,
  read_basic_method, read_tx_method, read_confirm_method, read_method,
}
use gitbook_golang.Amqp.Wire.{Reader, pure, ◌>>=◌}
use gitbook_golang.Amqp.Wire.Gives.{Gives, Gives-pure, Gives-fail, Gives-if, Gives-bind}

abbrev pub IsOf : ℕ → ℕ → Message → Type 0
IsOf class number m = message_id m ≡ (class, number)

-- One case of the switch on the number.
Gives-case :
    {A : Type 0} (class number k : ℕ) (p : Reader A) (f : A → Message) (q : Reader Message)
    → ((a : A) → message_id (f a) ≡ (class, k))
    → Gives (IsOf class number) q
    → Gives (IsOf class number) (if number == k then (do m ← p; pure (f m)) else q)
Gives-case class number k p f q h g =
    Gives-if number k (do m ← p; pure (f m)) q
      (λ e.
        Gives-bind p (λ m. pure (f m)) (λ m. Gives-pure (f m) (h m ∙ ap (λ n. (class, n)) (sym e))))
      g

read_connection_method-IsOf : (n : ℕ) → Gives (IsOf 10 n) (read_connection_method n)
unfolding read_connection_method message_id
read_connection_method-IsOf n = search (Gives-case, Gives-fail) depth 80

read_channel_method-IsOf : (n : ℕ) → Gives (IsOf 20 n) (read_channel_method n)
unfolding read_channel_method message_id
read_channel_method-IsOf n = search (Gives-case, Gives-fail) depth 80

read_exchange_method-IsOf : (n : ℕ) → Gives (IsOf 40 n) (read_exchange_method n)
unfolding read_exchange_method message_id
read_exchange_method-IsOf n = search (Gives-case, Gives-fail) depth 80

read_queue_method-IsOf : (n : ℕ) → Gives (IsOf 50 n) (read_queue_method n)
unfolding read_queue_method message_id
read_queue_method-IsOf n = search (Gives-case, Gives-fail) depth 80

read_basic_method-IsOf : (n : ℕ) → Gives (IsOf 60 n) (read_basic_method n)
unfolding read_basic_method message_id
read_basic_method-IsOf n = search (Gives-case, Gives-fail) depth 80

read_tx_method-IsOf : (n : ℕ) → Gives (IsOf 90 n) (read_tx_method n)
unfolding read_tx_method message_id
read_tx_method-IsOf n = search (Gives-case, Gives-fail) depth 80

read_confirm_method-IsOf : (n : ℕ) → Gives (IsOf 85 n) (read_confirm_method n)
unfolding read_confirm_method message_id
read_confirm_method-IsOf n = search (Gives-case, Gives-fail) depth 80

-- One case of the switch on the class.
Gives-class :
    (class number k : ℕ) (p q : Reader Message)
    → Gives (IsOf k number) p
    → Gives (IsOf class number) q
    → Gives (IsOf class number) (if class == k then p else q)
Gives-class class number k p q h g =
    Gives-if class k p q (λ e. subst (λ c. Gives (IsOf c number) p) (sym e) h) g

-- Under a class and a number `parseMethodFrame` reads only a struct that has both as its id.
pub read_method-IsOf : (class number : ℕ) → Gives (IsOf class number) (read_method class number)
unfolding read_method
read_method-IsOf class number =
    search
      (
        Gives-class, Gives-fail, read_connection_method-IsOf, read_channel_method-IsOf,
        read_exchange_method-IsOf, read_queue_method-IsOf, read_basic_method-IsOf,
        read_tx_method-IsOf, read_confirm_method-IsOf,
      )
      depth 60
