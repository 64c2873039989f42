-- ===== src/Tests/Rabbitmq.antt =====
-- Tags, URLs, employees and the loops of the demo at concrete inputs.
use gitbook_golang.Prelude.{
  ℕ, ◌%◌, ◌^◌, ◌≤◌, ◌≡◌, refl, ◌≢◌, Option, none, some, List, [], ◌∷◌, map, arith, ◌==◌,
  if◌then◌else◌, length,
}
use gitbook_golang.Amqp.Consumers.Tag.{
  consumer_tag_length_max, command_name_based_unique_consumer_tag, tag-shortstr, tags_differ,
}
use gitbook_golang.Amqp.Strings.{read_shortstr, write_shortstr}
use gitbook_golang.Amqp.Wire.{Bytes}
use gitbook_golang.Amqp.Wire.Codec.{Codec}
use gitbook_golang.Gorm.{zeros, padded, gen_employee}
use gitbook_golang.Rabbitmq.Demo.{
  publish, waits, taken, consumer, deliveries, numbered, from, no_times, a_time, consumer-publish,
}
use gitbook_golang.Rabbitmq.Pool.{
  close, channel, HostPort, Rbmq, new_rbmq, host_port_at, got, missing_host_ports, Reply, gives,
  of_conn, on_dialed, dial, channel-new_rbmq, close_loop, open_conns, last_error, close_lem,
}
use gitbook_golang.Rabbitmq.Url.{
  no_bytes, is_kept, hex_digit, escape_byte, path_escape, amqp_url, outside, unescape, a_byte,
  amqp_url-vhost,
}
use gitbook_golang.Text.{codes, digits, format_uint, has_byte, behind}

some_tag : (command_name_based_unique_consumer_tag (codes "sniffer") 11).0 ≡ codes "ctag-sniffer-12"
unfolding command_name_based_unique_consumer_tag format_uint digits
some_tag = refl

tag-shortstr_example :
    (length (command_name_based_unique_consumer_tag (codes "sniffer") 11).0
      ≤ consumer_tag_length_max)
    × Codec
        (write_shortstr (command_name_based_unique_consumer_tag (codes "sniffer") 11).0)
        read_shortstr
        (command_name_based_unique_consumer_tag (codes "sniffer") 11).0
tag-shortstr_example = tag-shortstr (codes "sniffer") 11

tags_differ_example :
    (command_name_based_unique_consumer_tag (codes "a") 3).0
    ≢ (command_name_based_unique_consumer_tag (codes "a") 4).0
tags_differ_example =
    tags_differ (codes "a") (codes "a") 3 4 (omega arith) (omega arith) (λ e. omega arith)

some_url :
    amqp_url (codes "u") (codes "p") (codes "h") (codes "5672") (codes "/")
    ≡ codes "amqp://u:p@h:5672/%2F"
unfolding amqp_url path_escape escape_byte is_kept hex_digit has_byte
some_url = refl

amqp_url-vhost_example :
    unescape outside
      (behind b'/' (amqp_url (codes "u") (codes "p") (codes "h") (codes "5672") (codes "/%")))
    ≡ codes "/%"
amqp_url-vhost_example =
    amqp_url-vhost (codes "u") (codes "p") (codes "h") (codes "5672") (codes "/%")
      (a_byte (omega arith) (a_byte (omega arith) no_bytes))

abbrev some_host : HostPort
some_host = record { host = codes "h"; port = 5601 }

-- Connections, channels and errors are numbers.
abbrev dials : Bytes → Reply ℕ ℕ
dials url = gives 7

abbrev opens : ℕ → Reply ℕ ℕ
opens conn = gives 8

channel-new_rbmq_example :
    channel (λ n. 0) dials opens (new_rbmq (some_host ∷ [])) (codes "u") (codes "p") (codes "/")
    ≡ missing_host_ports
channel-new_rbmq_example =
    channel-new_rbmq (λ n. 0) dials opens (some_host ∷ []) (codes "u") (codes "p") (codes "/")

-- With a host the pool dials it.
dialed :
    channel
      (λ n. 0)
      dials
      opens
      (record { host_ports = some_host ∷ []; conns = [] })
      (codes "u")
      (codes "p")
      (codes "/")
    ≡ got 8
unfolding channel dial host_port_at on_dialed of_conn
dialed = refl

-- Closing the connection 2 gives the error 9.
abbrev closes : ℕ → Option ℕ
closes c = if c == 2 then some 9 else none

abbrev some_pool : Rbmq ℕ
some_pool = record { host_ports = []; conns = some 2 ∷ none ∷ some 3 ∷ [] }

close_lem_example :
    ((close closes some_pool).calls ≡ open_conns closes some_pool.conns)
    × (length (close closes some_pool).conns ≡ length some_pool.conns)
    × ((close closes some_pool).err ≡ last_error closes none (open_conns closes some_pool.conns))
    × ((close closes (record some_pool { conns = (close closes some_pool).conns })).calls ≡ [])
    × ((close closes (record some_pool { conns = (close closes some_pool).conns })).err ≡ none)
close_lem_example = close_lem closes some_pool

-- The error of the connection 2 is lost.
lost_error : (close closes some_pool).err ≡ none
unfolding close close_loop
lost_error = refl

-- A time is its binary form.
abbrev some_times : List Bytes
some_times = codes "t0" ∷ codes "t1" ∷ []

consumer-publish_example :
    ((publish (λ t. some t) (λ b. some b) (map (λ t. taken t) some_times)).ending ≡ waits)
    × (consumer
          (λ t. some t)
          (λ b. some b)
          (deliveries
            (λ t. some t)
            (λ b. some b)
            1
            (publish (λ t. some t) (λ b. some b) (map (λ t. taken t) some_times)).sent)
        ≡ record {
          ending = waits;
          cnt = length some_times % 2 ^ 64;
          seen = numbered (λ t. some t) (λ b. some b) 0 some_times;
          acked = from (λ t. some t) (λ b. some b) 1 some_times;
        })
consumer-publish_example =
    consumer-publish (λ t. some t) (λ b. some b) some_times
      (a_time (codes "t0") refl refl (a_time (codes "t1") refl refl no_times))

some_employee : (gen_employee 6).email ≡ codes "emp03d@example.org%!(EXTRA uint=6)"
unfolding gen_employee format_uint digits
some_employee = refl

some_name : (gen_employee 6).name ≡ codes "emp007"
unfolding gen_employee format_uint digits padded zeros
some_name = refl
