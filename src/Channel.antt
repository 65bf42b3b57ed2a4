-- ===== src/Channel.antt =====
-- channel/: the framings that split a stream of bytes into messages, and the direct channel. A
-- framing's reader is the list of the bytes that are still to come, behind which the stream is at its
-- end.
pub mod Direct
pub mod Header
pub mod Raw
pub mod Split
