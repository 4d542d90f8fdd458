-- ===== src/Lib.antt =====
-- acatl: the MQTT broker's parsers, serializer, subscriptions, sessions and processors; the HTTP
-- parser's callbacks, sessions, cookies and query parameters; the options of a command line; the
-- string helpers, the lexer, checked casts of integers, paths and the operations on files, and the
-- thread pool; and the connections of the example broker and the example HTTP server, which stand on
-- these.
--
-- A connection of the broker (examples/mqtt_broker/connection.h) gives the bytes that it receives to
-- `MQTTParser` (acatl_mqtt/mqtt_parser.h), which reads the fixed header and then hands each byte to
-- the parser of the packet's type. A complete packet goes to the connection's `Processor`
-- (acatl_mqtt/mqtt_processor.h). That takes a session from the `SessionManager` for a CONNECT, adds the
-- filters of a SUBSCRIBE to the `SubscriptionTree` through the `SubscriptionTreeManager`, and for a
-- PUBLISH matches the topic against the tree and queues the packet for the sender of each session that
-- is found. The `Serializer` writes the replies and the queued packets, one at a time, as the queue of
-- the connection hands them out.
--
-- On the HTTP side the C library http_parser calls back `HttpParser::Impl`
-- (acatl_network/http_parser.cpp), which collects the pieces of each text and calls the user's
-- callbacks. A server takes the query (`HttpQueryParameter`), the cookies (`HttpCookie`) and the session
-- (`HttpSessionManager`) from what they get; the first two stand on the string helpers. The example
-- server (examples/http_server) takes the path from the URL parser and the file that it names from the
-- operations on files, whose paths are the lexical ones and whose system calls are a parameter.
--
-- The files and the code they model, from acatl_mqtt/ where no other folder is named:
--   Mqtt/Types, Mqtt/Error        mqtt_types.h, acatl/tribool.h, mqtt_error.h
--   Mqtt/Packets                  mqtt_control_packets.h
--   Mqtt/Utils                    mqtt_utils.h
--   Mqtt/Topic                    mqtt_topic.h
--   Mqtt/StringParser, Mqtt/PacketIdentifierParser, Mqtt/FixedHeaderParser
--                                 mqtt_string_parser.h, mqtt_packet_identifier_parser.h,
--                                 mqtt_fixed_header_parser.h
--   Mqtt/ConnectParser, Mqtt/ConnectAckParser, Mqtt/PublishParser, Mqtt/SubscribeParser, Mqtt/SubAckParser
--                                 mqtt_connect_parser.h, mqtt_connack_parser.h, mqtt_publish_parser.h,
--                                 mqtt_subscribe_parser.h, mqtt_suback_parser.h
--   Mqtt/Parser                   mqtt_parser.h, the inner loop of `handle_read` in
--                                 examples/mqtt_broker/connection.h
--   Mqtt/Connection, Mqtt/Connection/Sending
--                                 examples/mqtt_broker/connection.h
--   Mqtt/Serializer               mqtt_serializer.h
--   Mqtt/Tree, Mqtt/TreeManager   mqtt_subscription_tree.h, mqtt_subscription_tree_manager.h
--   Mqtt/Session                  mqtt_session.h, mqtt_session_manager.h
--   Mqtt/Processor                mqtt_processor.h
--   Core/Strings                  acatl/string_helper.h, acatl/string_helper.cpp
--   Core/ThreadPool               acatl/thread_pool.h
--   Core/Path                     acatl/filesystem.cpp
--   Core/Files, and the files below it
--                                 acatl/filesystem.h, acatl/filesystem.cpp,
--                                 acatl/detail/posix/filesystem.cpp
--   Core/Lexer                    acatl/lexer.cpp
--   Core/NumericCast              acatl/numeric_cast.h
--   Core/Easter                   acatl/date_helper.h
--   Net/HttpTypes, Net/HttpStatus acatl_network/http_types.h, acatl_network/http_types.cpp
--   Net/HttpParser                acatl_network/http_parser.cpp
--   Net/HttpSession               acatl_network/http_session.cpp, acatl_network/http_session_manager.cpp
--   Net/HttpQueryParameter        acatl_network/http_query_parameter.cpp
--   Net/HttpCookie                acatl_network/http_cookie.h, acatl_network/http_cookie.cpp
--   Net/HttpUrl                   acatl_network/http_url_parser.cpp
--   Net/HttpServer                examples/http_server/connection.h, examples/http_server/types.h,
--                                 examples/http_server/mime_types.h, `load_file` of
--                                 acatl/string_helper.cpp
--   App/Options, App/Options/Groups
--                                 acatl_application/command_line_options.h,
--                                 acatl_application/command_line_options.cpp
-- The folders below these hold the lemmas and theorems about each; Mqtt/Run has the loop of one parser
-- over bytes, the Examples files the runs on small inputs, and Base what all files share.
--
-- A class is a record of its members, and a method a function from the record, the arguments and the
-- error code to the record, the result and the error code behind the call. An error code is an
-- `Option`, and the members of packets are byte lists and numbers. `buffer[index++] = b` is a write
-- with a cursor, which has no result out of range; a null or dangling reference has none either.
-- Sessions live on a heap and are numbers, so that the tree, the map and the processors share them.
-- The copies of a topic iterator share one state in the program, and in the model of a match too.
--
-- A pool is a state with a place in the loop for each worker, and its threads are a relation of steps,
-- one between two accesses to what they share. The structures that argtable3 fills, the options and the
-- sessions of the HTTP part are shared through places in a store as well. http_parser, argtable3 and
-- regular expressions are parameters: functions that say what is found in a buffer, a command line or
-- a text. What throws is `none` or a constructor of a result type.
--
-- The calls of the operating system are the record `Os`, over a state of the system that the calls that
-- change it hand on. A stream of a directory is the list of what the calls of `readdir` on it will give,
-- known when it is opened, and an error code is a name of `errno`. An exception that leaves a `noexcept`
-- function is the outcome `terminated`. The threads that use the queue of a connection are steps too,
-- one for what is done under the lock.
--
-- Bounds: numbers of 8, 16 and 32 bits wrap where the code lets them, written `% 2 ^ w`. The encoder of
-- the remaining length runs on five rounds of fuel, the groups of seven bits that 32 bits have, and the
-- loop over the levels of a topic on one round more than its length, as each takes a character. The
-- loop of `split` has a round for each character, that of `replaceAll` one more, and the lexer takes at
-- most one for each character that is left and one more. A fuel that is used up is `none`. The loops
-- over directories and the recursion of `remove_all` take fuel, of which some number is enough for each
-- tree; `absolute` needs three levels, and the loop over a read one round more than there are bytes.
--
-- Not modelled: output (dump, stream operators, logging, the texts of errors, usage texts), sockets but
-- for their answers, the interleaving of threads inside one call but for the pool's and the queue's,
-- what other programs do to a directory while it is read, JSON and with it the set-up of the examples,
-- and the calendar but for the date of Easter. A generated UUID and the time are arguments. The order
-- of a set of sessions, which is that of pointers, is the order in which the model finds them.
pub mod Base
pub mod Core
pub mod Net
pub mod App
pub mod Mqtt
