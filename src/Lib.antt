-- ===== src/Lib.antt =====
-- iLBC-Go: a Go port of the iLBC speech codec of RFC 3951, and a small voice call that uses it.
--
-- The codec turns a frame of 160 or 240 samples into integer indices (src/ilbc_encode.go) and those
-- into a packet of 38 or 50 bytes; the decoder (src/ilbc_decode.go) parses a packet into the indices
-- and synthesises the frame, or conceals it. The call (cmd/talk) sends a packet of the codec in each
-- datagram, and its playout puts those that arrive in order. This library is about the packet, its
-- acceptance, the decoder, the datagram and the playout.
--
-- The files, and the code that each models:
--   Bitstream   src/packing.go: packsplit, packcombine, dopack, unpack. The `span`s of the bitstream
--               and its position are a cursor: the bytes, the offset of the current byte, the number
--               of its bits in use. The two loops run on fuel `bitno`, which is enough because each
--               round takes at least one bit.
--   Layout      src/constants.go: the tables ulp20Table and ulp30Table, and the dimensions that
--               initEncode and initDecode set for a mode, in the same way.
--   Frame       src/ilbc_encode.go, src/ilbc_decode.go: the loops over the sensitivity classes that
--               write the indices of a frame into a packet, and those that read them. Frame/Fields
--               describes a field by its bits in each class, Frame/Encode and Frame/Decode the bit
--               string of a frame, Frame/Total the parsing of any bytes.
--   Packet      the conversion of the codebook indices (src/icbconstruct.go), the end of encodeFrame
--               and the start of decodeFrame, with the tests that decide on concealment.
--   Talk/Wire   cmd/talk/protocol.go: packet, marshal, parsePacket.
--   Talk/Jitter cmd/talk/protocol.go: jitterBuffer, its insert and take.
--   Talk/Audio  cmd/talk/audio.go: audioBridge and process. A channel is the list of what it holds.
--   Talk/Network cmd/talk/network.go: sameAddress, send, handshake and receive. The answers of the
--               socket, the clock and the context are the rounds of a list, one for each pass.
--               The capacity of the channel to the playout is the one of cmd/talk/call.go.
--   Gain        src/gainquant.go, over Floats: a `float32` of any type, with the operations of Go.
--   Quantiser   src/helpfun.go: vq and splitVQ.
--   Arrays      the `span`s of src/span.go as lists: an array and an index, with the panics of both ends,
--               counted loops with their invariants, and arrays that are overwritten as a whole.
--   Filter      src/filter.go.
--   Synthesis   src/syntfilter.go, src/anafilter.go, src/hpinput.go, src/hpoutput.go.
--   Vectors     src/helpfun.go: autocorr, window, levdurb, interpolate, bwexpand.
--   Lsf         src/helpfun.go: checkLSF, and src/lsf.go: lsf2a.
--   Lpc         src/lpcdecode.go, with its codebook in Lpc/Table.
--   StartState  src/stateconstructw.go.
--   StateSearch src/statesearchw.go, and sortSq of src/helpfun.go, whose loop runs on as much fuel as the
--               codebook has entries, which is enough because each round goes up by one entry.
--   Classify    src/frameclassify.go.
--   Codebook    src/getcbvec.go, and constructCodebook of src/icbconstruct.go.
--   Residual    src/ilbc_decode.go: decode. Residual/Received joins it to the packet.
--   State       src/constants.go: decoderState and encoderState, initDecode and initEncode on the state
--               that they overwrite, empty in NewDecoder and NewEncoder. State/Initial has the initial
--               states. The invariant of a decoder is IsDecoder.
--   Plc         src/docplc.go.
--   Decoder     src/ilbc_decode.go: decodeFrame for an `enhancement` other than 1, src/denormal.go, and
--               Decoder.decode of src/codec.go.
--   Api         src/codec.go: NewDecoder, Decode, Conceal and Reset, for such a decoder; NewEncoder and its
--               Reset.
--   Prelude     lists over the native numbers, Boolean tests, powers of two and `|` on bits.
--   Tests       runs of the definitions, and the results at concrete inputs.
--
-- An int of the codec that is modelled is an index or a count, never negative, so it is a natural
-- number; bytes and sequence numbers have their wrap-around written out. A panic by an index out of
-- range is `none`. A list stands for the part of an array that the loops go through.
--
-- The operations of a `float32` are a parameter, the record Floats, with no laws but where a theorem has
-- IsOrdered or IsTotal, so that what is shown holds for every rounding and for NaN. The loop counters are those of the
-- source, and no loop needs fuel but those of Bitstream and of sortSq.
--
-- Not modelled: the LPC analysis and the codebook search of the encoder, whose indices are arguments here,
-- with a2lsf; the enhancer; Encode; the
-- goroutines and audio devices of cmd/talk, and its channel of errors. The C sources under src/testdata are
-- the reference that the tests compare with.
pub mod Prelude
pub mod Floats
pub mod Gain
pub mod Quantiser
pub mod Bitstream
pub mod Layout
pub mod Frame
pub mod Packet
pub mod Talk
pub mod Arrays
pub mod Filter
pub mod StartState
pub mod StateSearch
pub mod Classify
pub mod Codebook
pub mod Residual
pub mod State
pub mod Plc
pub mod Vectors
pub mod Lsf
pub mod Lpc
pub mod Synthesis
pub mod Decoder
pub mod Api
pub mod Tests
