-- ===== src/Lib.antt =====
-- Verification of StrMod, a C++ framework for modules that exchange chunks of data.
--
-- * LinearExtent models StrMod/pubinclude/StrMod/LinearExtent.h and StrMod/LinearExtent.cxx, the
--   ranges of which the chunk classes are cut. `extent` is the constructor, `end_offset` is
--   `EndOffset`, `sub_extent` and `sub_extent_eq` are `SubExtent` and `SubExtent_eq`, and the moves
--   have the names of the methods. Offsets and lengths are words of 32 bits that wrap.
-- * Xml models xml/utf8_Lexer.cpp, xml/utf8_LexerSane.cpp and xml/xml/utf8/Lexer.h. A `Machine` is
--   the lexer while `lex` runs; `advance_state` is `advanceState`, a function for each group of its
--   cases, and `lex` is `lex`. The calls that the lexer makes of a Builder are a list of events, and
--   the exception for a name that does not fit is a result.
-- * Telnet models StrMod/TelnetParser.cxx and its header, with the character classes of
--   StrMod/pubinclude/StrMod/TelnetChars.h. A step leaves the parser and the calls that it makes of
--   the builder, or is a fault: an assertion that fails, a null pointer that is read through, or a
--   store out of bounds. Whether assertions are compiled in is a parameter, and so is the byte that
--   new storage holds.
-- * Dispatcher models UniEvent/SimpleDispatcherImp.cxx. `dispatch_events` is `dispatchEvents`, and
--   the functions below it have the names of the methods that it calls. What an event does when it
--   is triggered is a parameter: a list of calls of its dispatcher, which may depend on the events
--   triggered before. Events that dispatch in their turn are left out.
-- * Timer models UniEvent/pubinclude/UniEvent/Timer.h, UniEvent/Timer.cxx and
--   UniEvent/TimerEventTracker.cxx: `interval_lt`, `absolute_sub` and so on are the operators, and
--   `post_at`, `post_expired` and `next_expiration_in` the methods of the tracker. Its multimap is a
--   list in the order of the keys. The system's time is a number of seconds.
-- * PreAllocBuffer models StrMod/PreAllocBuffer.cxx, the buffer that the parser of Telnet reads
--   suboptions into: `i_resize` is `i_resize`. Which sizes there is memory for is a parameter.
-- * Chunk models the classes of chunks (StrMod/StrSubChunk.cxx, StrMod/GroupChunk.cxx,
--   StrMod/BufferChunk.cxx and StrMod/pubinclude/StrMod/TelnetChunkerData.h), the visitors
--   (StrMod/UseTrackingVisitor.cxx, StrMod/ApplyVisitor.cxx) and StrMod/ChunkIterator.cxx. A `Chunk`
--   is what its object holds, and `bytes` what it stands for. `accept_visitor` is `acceptVisitor` of
--   all classes, and leads a `Visitor` through; `make_shared` is the area that iterators share.
-- * Chopper models StrMod/CharChopper.cxx with the two operations of
--   StrMod/pubinclude/StrMod/StreamProcessor.h: `process_incoming`, `write_to` and `read_from`. Its
--   chunks are those of Chunk, and its `char` has a sign, as on x86.
-- * Serializer models StrMod/OutSerializer.cxx and StrMod/InSerializer.cxx with their headers, and
--   the `hton` and `ntoh` of LCore/pubinclude/LCore/GenTypes.h that a build for 64-bit x86 takes, in
--   the processor's order and with a `U4Byte` of 8 bytes: `add_u2_byte` is `addU2Byte`, `get_string`
--   is `GetString` and so on. A write that would go astray gives `none`; what lies behind the array
--   from which `GetU4Byte` takes too many bytes is a parameter.
-- * Plug models StrMod/StreamModule.cxx and StrMod/pubinclude/StrMod/StreamModule.h: `plug_into` is
--   `plugInto`, `push_loop` is `pushLoop`, `unplug` is `unPlug` and so on, on a `Net` of numbered
--   plugs. What a module does when it is read, written, told of something or disconnected is a
--   parameter. The two loops have fuel, for which the number of chunks to be moved is enough, and
--   `unplug` has fuel 3 where it is used.
-- * Chunker models StrMod/TelnetChunker.cxx: a `Builder` queues chunks for the calls of the parser
--   of Telnet, and `process_incoming` is `processIncoming`; the loops over an incoming chunk go over
--   the blocks that a visitor of Chunk hands out. Whether somebody else holds the chunk that is kept
--   is a parameter. Chunker/Cooked has the constructor of `Suboption` from cooked bytes.
-- * Poll models UniEvent/UnixEventPoll.cxx: `register_fd_cond`, `free_fd`, `on_signal`, `clear_event`
--   and `clear_signal` are the registry's methods, and `do_poll` is `doPoll`, with the tracker of
--   Timer and the queue of Dispatcher. A set of conditions is a record of five bits. What poll and
--   the clock answer, and the signals that arrive meanwhile, is a list of rounds.
--
-- How they interact: a chunk is cut by extents; visitors and iterators go over the bytes of its
-- tree, and a chopper cuts and joins chunks; the parser and the lexer are fed the buffers that a
-- stream of chunks is made of, and the chunker makes chunks again of what the parser reports; the
-- tracker hands the events that are due to a dispatcher, which triggers them, and the registry of
-- Poll adds those for signals and descriptors.
--
-- Base holds the shared names, Boolean tests on numbers, and lists that are measured by native
-- numbers. Loops go over lists, but for those of the plugs and three more: `dispatchEvents` has
-- fuel for twice the number of events asked for and one, as a round that counts no event is
-- followed by one that does; the loop of `dispatchUntilEmpty` need not end, and takes its fuel as
-- an argument; and `merge` has fuel for all events of its two maps. The loop of `doPoll` goes over
-- its rounds, one for each time that poll is interrupted and one more.
--
-- Not modelled: the input and output of files and sockets (the StreamFDModule, SocketModule and
-- SockListenModule classes of StrMod), whose behaviour is that of the system's calls; the modules
-- that stand on the plugs (SimpleMultiplexer, RouterModule, StreamSplitter, EchoModule), the
-- NewlineChopper, the StaticBuffer and DynamicBuffer classes, the words of the sets of bits of
-- LCore, and the glue between registry and dispatcher, which the parts above do not need; the name
-- service of EHnet++ and the class identification of LCore; what is only printed; and the examples
-- and tests.
pub mod Base
pub mod Chopper
pub mod Chunk
pub mod Chunker
pub mod Dispatcher
pub mod LinearExtent
pub mod Plug
pub mod Poll
pub mod PreAllocBuffer
pub mod Serializer
pub mod Telnet
pub mod Timer
pub mod Xml
