-- ===== src/Amqp/Spec/Content/Ends.antt =====
-- The basic class: the methods that carry content. Its reads on any bytes.
use gitbook_golang.Prelude.{ℕ}
use gitbook_golang.Amqp.Field.Ends.{string_rules}
use gitbook_golang.Amqp.Spec.Content.{
  read_basic_publish, read_basic_return, read_basic_deliver, read_basic_get_ok,
}
use gitbook_golang.Amqp.Wire.Shrinks.{Shrinks}

pub read_basic_publish-Shrinks : (n : ℕ) → Shrinks n read_basic_publish
unfolding read_basic_publish
read_basic_publish-Shrinks n = search string_rules depth 20

pub read_basic_return-Shrinks : (n : ℕ) → Shrinks n read_basic_return
unfolding read_basic_return
read_basic_return-Shrinks n = search string_rules depth 20

pub read_basic_deliver-Shrinks : (n : ℕ) → Shrinks n read_basic_deliver
unfolding read_basic_deliver
read_basic_deliver-Shrinks n = search string_rules depth 20

pub read_basic_get_ok-Shrinks : (n : ℕ) → Shrinks n read_basic_get_ok
unfolding read_basic_get_ok
read_basic_get_ok-Shrinks n = search string_rules depth 20
