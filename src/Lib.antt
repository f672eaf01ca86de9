-- ===== src/Lib.antt =====
-- Consumers of RabbitMQ queues that take no more than a quota of messages in each interval of
-- time, and the coordination drivers that keep the count for one process or for several.
--
-- Parts. Bucket models `RabbitMQToBucketQueue` (src/RabbitMQToBucketQueue.ts): Bucket/Defs its
-- fields and what it calls, Bucket/Calls its private methods that call RabbitMQ and the
-- coordinator, Bucket/Items and Bucket/Tick the method `#tick`, Bucket/Chunk the method `#chunk`,
-- Bucket/Life the public methods and the events, Bucket/Boot the part of `#doBoot` that follows
-- the validation of the configuration, and Bucket/Boot/Configured the static `initialize`, which
-- reads a configuration and boots from it. Validation models src/validation: Validation/Types and
-- Validation/Options the type functions, Validation/Registry their registration,
-- Validation/Consumer and Validation/Producer the checks of the configurations by the two
-- classes; what follows from an accepted configuration stands in the children of
-- Validation/Consumer and in Validation/Ports. What is proved of a tick stands in Bucket/Settle
-- (deliveries), Bucket/Rate (the quota, with a file for each driver, and Bucket/Rate/Together for
-- several consumers) and Bucket/Frame (what every part of a tick preserves). Coordinator models
-- the interface of the drivers (contracts/CoordinatorDriver.ts,
-- abstracts/CoordinatorDriverBase.ts), Coordinator/Memory, Coordinator/Database,
-- Coordinator/Redis and Coordinator/Mqtt the drivers of these names under src/coordinators. The
-- consumer uses a driver through the record `Driver` only; Coordinator/Memory/Timed fills it for
-- the memory driver. Coordinator/Shared fills it for one instance of a driver whose instances
-- share their counts, from its calls and what others do (the record `Store`); the files Timed of
-- Coordinator/Database, Coordinator/Redis and Coordinator/Mqtt fill that, and the laws `Counts`
-- that the quota rests on. Coordinator/Mqtt/Ready is about the promise that the MQTT driver waits
-- for. Coordinator/Mqtt/Topics is about the topics of its messages, Coordinator/Mqtt/Own about
-- the counts that an instance has made itself. Producer models `ToRabbitMQBucketQueue`
-- (src/ToRabbitMQBucketQueue.ts), which puts items on a queue: Producer has `enqueue`, `shutdown`
-- and the fatal errors, Producer/Boot the boot, Producer/Answers and Producer/Stops are about
-- what `enqueue` sends and resolves with. Connection models the class of this name in
-- src/rabbitmq/Client.ts, which no other class uses. Promise has the chains of asynchronous calls
-- that the two boots and the producer use. Server models `CoordinationServer`
-- (src/CoordinationServer.ts), which keeps a memory coordinator for each queue on behalf of
-- clients: Server has its handlers, Server/Accounts what clients ask for, and Server/Changes and
-- Server/Refines relate the two; Server/Schedule, Server/Silent, Server/Connect and Server/Newest
-- are about its broadcasts, and Server/Unique about its coordinators. Client models
-- `CoordinationClient` (src/CoordinationClient.ts) and the driver that is made of it
-- (src/coordinators/lite.ts): Client/Leaks and Client/Listeners are about its listeners,
-- Client/Balance about its balance, and Client/Arrivals and Client/Broadcasts let it run against
-- the server's model. Encryption models src/encryption, which the server and its clients use: a
-- token is the list of its parts and texts are bytes, and the server's model records its messages
-- before their encryption; Encryption/Base64 has the encodings and the strict decoding of
-- Base64.ts.
--
-- State. The fields of a class that change are a record; a method takes it and gives it back.
-- Fields that are set once are in `Options` and `Env`. A promise that rejects, or a call that
-- throws, gives an `err` with its error. The consumer keeps a trace of its successful calls and
-- of its events, the newest entry first.
--
-- Outside code. RabbitMQ (amqplib) is the record `Channel` for the consumer and `Outlet` for the
-- producer, and for their boots `Amqp` and `Broker`, for the connection `Link`, over any world
-- `W` that each call may change; the user's callbacks are functions on the same world. The SQL
-- database (knex) is the record `Sql` for rows and `Schema` for tables, with the documented
-- effect of the statements as fields, and Redis the record `Redis`, whose commands run at a given
-- time. The MQTT client is what it is asked to publish and the events that it emits. Its broker
-- may deliver any message of another instance, and any with the uuid of a count that this
-- instance has cleared; the message of another count of its own comes back as it was sent. The
-- server's check of tokens (jsonwebtoken) and its decryption are functions that its handlers
-- take, as is the client's decryption; where the two run together both ends are the record
-- `Sealing`. The sockets (socket.io) are histories of events: their listeners are called in
-- order, and one is removed by the function that was registered. validate.js is the record
-- `ValidateJs`: it has no errors exactly if every attribute passes its rules, as its
-- documentation says of each rule; lodash.merge is a function. The primitives of encryption
-- (node's crypto and Buffer, jsonwebtoken) are the record `Primitives`. A delivery is identified
-- by its delivery tag.
--
-- Order. While a tick awaits a call of RabbitMQ, of the coordinator or of the user's functions,
-- other code may cork, uncork and purge the consumer, a shutdown may get to its end, and the
-- channel or the connection may fail (`interrupted`), any number of times and in any order; each
-- of these happens at once. The calls of one `Promise.all` run in the order of its list, and a
-- promise that nobody awaits runs when it is made. A list of happenings says in which order the
-- public methods, the events and the turns of the event loop come.
--
-- Loops. The loop of `#chunk` runs on fuel, which the length of the list covers, since the index
-- grows by at least 1 in each round. All other loops are recursion on a list or a number.
--
-- Numbers are natural numbers: sizes, quotas, intervals and counts are not negative and not
-- fractional; the validation asks for this, but lets null pass, which is no number here. A
-- balance may be NaN, which is `none` in `Number`. The consumers of Bucket/Rate/Together see one
-- clock. Times are milliseconds, in Encryption too. Not modelled of Redis: what another instance
-- does between KEYS and MGET. Not modelled: logging, the timestamps in events, and the listeners
-- of the events (one for `error` is assumed, since without it `emit` throws). The validation
-- knows a value by its type, its properties and what it is an instance of; NaN is no value there.
pub mod Common
pub mod Coordinator
pub mod Bucket
pub mod Promise
pub mod Server
pub mod Client
pub mod Connection
pub mod Producer
pub mod Encryption
pub mod Validation
pub mod Tests
