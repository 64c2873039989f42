-- ===== src/Rabbitmq.antt =====
-- The RabbitMQ demo: the connection pool of mq/rabbitmq/rbmq and the two loops of mq/rabbitmq/main.go.
pub mod Url
pub mod Pool
pub mod Demo
