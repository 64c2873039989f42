-- ===== src/Amqp/Spec/Content/Stable.antt =====
-- The basic class: the methods that carry content. Its reads with more bytes behind.
use gitbook_golang.Amqp.Field.Stable.{string_stable_rules}
use gitbook_golang.Amqp.Spec.Content.{
  read_basic_publish, read_basic_return, read_basic_deliver, read_basic_get_ok,
}
use gitbook_golang.Amqp.Wire.Stable.{Stable}

pub read_basic_publish-Stable : Stable read_basic_publish
unfolding read_basic_publish
read_basic_publish-Stable = search string_stable_rules depth 20

pub read_basic_return-Stable : Stable read_basic_return
unfolding read_basic_return
read_basic_return-Stable = search string_stable_rules depth 20

pub read_basic_deliver-Stable : Stable read_basic_deliver
unfolding read_basic_deliver
read_basic_deliver-Stable = search string_stable_rules depth 20

pub read_basic_get_ok-Stable : Stable read_basic_get_ok
unfolding read_basic_get_ok
read_basic_get_ok-Stable = search string_stable_rules depth 20
