-- ===== src/Mqtt.antt =====
-- acatl_mqtt: the parser of a byte stream into control packets, the serializer, topics and the
-- subscription tree, sessions and the processor of a broker's connection.
pub mod Types
pub mod Error
pub mod Packets
pub mod Utils
pub mod StringParser
pub mod PacketIdentifierParser
pub mod FixedHeaderParser
pub mod Topic
pub mod ConnectAckParser
pub mod PublishParser
pub mod SubAckParser
pub mod ConnectParser
pub mod SubscribeParser
pub mod Parser
pub mod Serializer
pub mod Tree
pub mod Session
pub mod TreeManager
pub mod Processor
pub mod Run
pub mod Connection
mod Examples
