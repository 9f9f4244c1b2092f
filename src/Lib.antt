-- ===== src/Lib.antt =====
-- Http2Serv: the HTTP/2 protocol of the server and of its client, as a model with its theorems.
--
-- The program is an HTTP server and client in C++. H2Proto.h is the core that both share: the class
-- Http2Protocol reads the frames of a connection, keeps the table of its streams and answers errors;
-- it derives from HPack (HPack.h, HPack.cpp), which decodes and encodes header blocks. The server
-- (HttpServ.cpp) and the client (HttpFetch.cpp) call Http2StreamProto with the bytes that were
-- received and implement EndOfStreamAction, which it calls for every request that is complete.
--
-- Files:
-- - Prelude: the helpers; lists and Boolean tests over the native numbers, bytes, integers.
-- - Hpack/Result: HPACKEXCODE of HPack.h and the results of fallible functions. An H2ProtoException
--   is `throw`, SIZE_MAX is `none`, undefined behaviour is `fault`.
-- - Hpack/Codes, Hpack/StaticTable: HUFFCODES and StaticHeaderListe of HPack.cpp, entry by entry.
-- - Hpack/Integer: EncodeInteger, DecodeInteger, DecodeIndex. Hpack/Huffman: HufmanEncode and
--   HufmanDecode. Hpack/Text: EncodeString and DecodeString. Hpack/Encode: HPackEncode. Hpack/Header:
--   HPackDecode. Hpack/HeadList: the class HeadList. Hpack/Fields: Http2DecodeHeader. Their child
--   modules hold the proofs.
-- - H2/Frame: H2FRAME, BuildHttp2Frame, Http2WindowUpdate, Http2StreamError and Http2Goaway of
--   H2Proto.h, and the reading of frame headers. H2/Streams: STREAMITEM and STREAMLIST. H2/Exec: the
--   state of a connection and the effects of the handlers. H2/Data, H2/Headers, H2/Settings,
--   H2/Control: the cases of the switch in Http2StreamProto. H2/Proto: its loop, its calls of
--   EndOfStreamAction and its handler of exceptions. H2/Proto/Answers: the answers to exceptions by
--   the numbers of RFC 7540, to compare with.
-- - H2/Steps: the elementary changes that the handlers consist of. Every handler keeps each relation
--   that these changes satisfy; H2/Steps/Relations takes one of them through the loop.
-- - WebSocket: the class of WebSocket.h and WebSocket.cpp, its frames and its state.
--   WebSocket/Receive: OnDataReceivedWebSocket, one function per case of the switch, and its loop over a
--   buffer. WebSocket/Frames: frames as RFC 6455 writes them, to compare with. Heads, RoundTrip,
--   Written, Rounds and Loop hold the proofs.
-- - ConfFile: the class of ConfFile.h and ConfFile.cpp. ConfFile/Line: the text functions of LoadFile.
--   ConfFile/Load: LoadFile with its recursion over included files, AreFilesModified and
--   CheckFileLoaded. ConfFile/Printed: a configuration as a file, to compare with. The other child
--   modules hold the proofs.
-- - HttpServ: HttpServ.h and HttpServ.cpp. HttpServ/Flow: the local functions of DoAction that share the
--   windows of a connection, and in its child modules the threads that call them, as a step relation.
--   HttpServ/Response: BuildH2ResponsHeader and BuildResponsHeader. HttpServ/Upload: the body of an
--   HTTP/1 request on its way from OnDataReceived to the action thread, as a relation of arrivals and
--   steps of the thread. HttpServ/Request: the header lines of such a request, and its fields expect and
--   content-length. HttpServ/Tables: RespText and MimeListe.
-- - Timer: the class of Timer.h, as a step relation with two clocks: system_clock, which can be set, and
--   the one of wait_for.
-- - CommonLib: the functions of CommonLib/UrlCode.cpp and CommonLib/Base64.h.
-- - Tests: runs of the model on concrete inputs.
--
-- A buffer to read is the list of the bytes from the pointer on, a buffer to write is its size. The
-- wrap-around of uint32_t, uint64_t and size_t is written out where the source can reach it. The fuel
-- of HufmanDecode is the number of the bits, since every code has five at least; the loop of
-- Http2DecodeHeader has a round for each byte, and the loop over the frames one more than there are
-- bytes.
--
-- The loop of OnDataReceivedWebSocket has a round for each byte of its buffer; where the code can loop
-- without an end, the model still runs when its rounds are used up. The fuel of LoadFile is the depth of
-- its recursion. The files, their times, the clock and the order of equal_range are parameters there.
--
-- EndOfStreamAction is a parameter of Http2StreamProto, an arbitrary function that may throw; that of the
-- server is modelled up to the start of its thread. The mutexes are left out there: a frame is handled with the stream mutex held. The threads of DoAction are modelled between
-- their locks: every local function of DoAction that takes the mutex of the streams is one step.
--
-- Not modelled are the traces, the sockets, files and processes, the rest of the server, which answers
-- errors, reads files and runs CGI, and the clients and the proxy around the protocol, and the copies of
-- MD5 and SHA-256 in CommonLib.
pub mod Prelude
pub mod Hpack
pub mod H2
pub mod WebSocket
pub mod ConfFile
pub mod HttpServ
pub mod Timer
pub mod CommonLib
pub mod Tests
