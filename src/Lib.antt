-- ===== src/Lib.antt =====
-- gitbook-golang: the AMQP 0-9-1 sniffer of mq/amqpparser, and the demos of mq/rabbitmq and database/gorm.
--
-- The program reads the TCP payloads of a capture and hands each to a `Parser`, which keeps one
-- connection for each client port. A connection reads frames off the payload and gives each to the
-- channel of its number. A channel puts a method, a content header and body frames together to a
-- message; a delivery goes through the consumers' buffers to a goroutine that sends it on.
--
-- The files, with the code they are about (in mq/amqpparser/amqp unless a path is given):
--   Amqp/Wire, Amqp/Strings    io.ReadFull, encoding/binary, and the strings of read.go and write.go
--   Amqp/Field                 Table and its values (types.go), readTable, readField, readArray,
--                              writeTable, writeField
--   Amqp/Properties            properties (types.go), and the two passes of headerFrame.write and the
--                              fields of parseHeaderFrame
--   Amqp/Spec                  the 62 methods of spec091.go by class, their id, wait, read and write,
--                              and the switches of parseMethodFrame
--   Amqp/Frame                 the frames (types.go), ReadFrame and WriteFrame
--   Amqp/Errors, Amqp/TagSet   the reply codes (spec091.go), Error and tagSet (types.go)
--   Amqp/Delivery              newDelivery, Ack, Nack and Reject (delivery.go), newReturn (return.go)
--   Amqp/Confirms              confirms.go
--   Amqp/Consumers             consumers.go, its goroutine `buffer` in Amqp/Consumers/Buffer, its
--                              tags in Amqp/Consumers/Tag
--   Amqp/Channel               channel.go, recvMethod, recvHeader and recvContent in Amqp/Channel/Recv
--   Amqp/Connection            connection.go
--   Amqp/Parser                parser.go
--   Sniffer                    printPacketInfo and the loop of parsePcap (mq/amqpparser/main.go)
--   Sniffer/Messages           handleMsg (mq/amqpparser/main.go)
--   Sniffer/MyMessage          mq/amqpparser/mymessage.go
--   Rabbitmq/Url, Rabbitmq/Pool  mq/rabbitmq/rbmq
--   Rabbitmq/Demo              the loops of publish and consumer in mq/rabbitmq/main.go
--   Gorm                       genEmployee of database/gorm/main.go
--   Text                       string constants, decimal numbers, the part behind a byte
--   Prelude                    names of the libraries, Boolean tests, lemmas on lists
--   Tests                      concrete runs
-- A function of the model has the name of its Go function in snake case, with `multiple_loop` and the
-- like for a loop inside it.
--
-- State is passed on explicitly. A reader takes the bytes that are left and returns an `Outcome`: a
-- value or an error, with the bytes left after it, or a Go panic. A writer gives the bytes written or
-- an error. Calls on channels and connections return a `Step`, with `crashed` for a Go panic and
-- `stuck` for a loop that does not end. A Go channel is what has been sent on it and whether it is
-- closed; a map is a function, or a list of entries where its entries are gone through.
--
-- Choices: bytes and unsigned integers are natural numbers, signed integers and floats their bit
-- patterns. A time is its Unix seconds, or the zero time. A nil table is the empty one, and an entry of
-- a table is written in the order of the list, where Go takes any order. `make` panics from 2^63 on;
-- memory that runs out below that is not modelled. Locks are left out: the frames of a connection are
-- handled by one goroutine.
--
-- Fuel: a table of n bytes gets 2 * n + 2, since each value takes an octet off the input and each
-- nesting another turn; the loops of confirms.go get the number of tags left to their bound; the loop of
-- `Parse` gets one turn for each byte and one more.
--
-- Not modelled: gopacket, whose findings in a packet are a record; the binary form of a time, a
-- parameter; the printing, flags and signals of the two main.go; the AMQP client library of
-- mq/rabbitmq, whose answers are parameters or stand in the turns of a loop, and the setup against a
-- broker; the database of database/gorm; dt-al, a list type without operations. The text of an error
-- (`Error()`, `fmt.Errorf`) is not modelled.
pub mod Prelude
pub mod Text
pub mod Amqp
pub mod Sniffer
pub mod Rabbitmq
pub mod Gorm
pub mod Tests
