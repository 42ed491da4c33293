-- ===== src/Lib.antt =====
-- A model of selfserv, a JSON library and an HTTP/1.1 server in C++98, with proofs about it.
--
-- The program's parts. The JSON code (src/json/json_parser.hpp and .cpp) is a library on its own. The
-- server reads a configuration (docs/config), polls its sockets and reads requests
-- (docs/server/Server.cpp), and hands the bytes it has read on a connection, all of them each time, to
-- HttpRequestParser::Parse (docs/http/HttpRequest.cpp), which keeps its place between the calls.
--
-- Text is a list of bytes (Base/Text). Unread input is the list of the bytes from m_current, or from
-- the position p, to the end: PeekChar looks at its head, NextChar drops it. A size_t is a native
-- number, with its wrap-around written out where the code can reach it; atoi and the conversions are
-- in Base/Int.
--
-- Json/Value: JsonValue and its subclasses, with AddValue, SetValue, GetValue, HasKey, GetKeys, Clone.
--   std::map keeps its keys in order: the members of an object are a list that SetValue keeps in the
--   order of operator< on std::string (`before`). Freed memory has no counterpart.
-- Json/Print: ToString. Json/Floats: what is taken from the C++ library about doubles, a parameter.
-- Json/Parser, Json/Number, Json/Document: JsonParser, one definition for each function; a message
--   that ThrowError throws is a value of `Message`, with the unread input in place of the position.
--   ParseValue and the loops of ParseArray and ParseObject take fuel, 2 * length + 1 in all, which is
--   enough, since each loop round and each call of ParseValue from a round reads a byte.
-- Json/Numeral, Json/Literal, Json/Writable, Json/Steps, Json/Texts, Json/RoundTrip, Json/Keys:
--   grammars and what is read back. Json/Consumed, Json/Fuel: termination. Json/Objects, Json/Ordered,
--   Json/Yields, Json/ParsedOrder: objects.
--
-- Http/Request: the structs of docs/http/HttpRequest.hpp. Http/Head: the request line and the headers.
-- Http/Chunks: the loop over a chunked body, one definition for each branch; a round gives `again`,
--   `left` (a break) or `failed`. The fuel is the number of bytes and one more, which is enough, since
--   each round that goes on reads a byte (Chunks/Progress).
-- Http/Parser: Parse. Parser/Framing: bodies by Content-Length. Chunks/Resume, Chunks/Arrival,
--   Parser/Ready, Parser/Kept, Parser/Resume, Parser/Arrival, Parser/Pieces: a request that arrives in
--   pieces.
--   Chunks/Encoded, Chunks/Decoded, Parser/Encoded: the text of a body in chunks, and what is read of it.
--
-- Config/Data, Config/Words, Config/Line: the structs of docs/config/Config.hpp, and ParseLine and the
--   loop of ParseFile of docs/config/ConfigParser.cpp, over the lines that fgets returns. currentServer
--   is NULL or the last server. Config/Frame: what a line leaves as it was.
-- Server/Route, Server/Filename: matchRoute, selectServer, hasHeader and sanitizeFilename of
--   docs/server/Server.cpp. Server/Best: which route is matched. Server/Select: which
--   server answers.
-- Server/Response: buildResponse, buildRedirect and guessType. Response/Lines, Response/Frame and
--   Response/Length: how a client reads what they write. Base/Decimal is sprintf's %d and %lu.
-- Server/Connection: ClientConnection of docs/server/Server.hpp. A descriptor or a process of -1 is
--   `none`. Connection/Writable: HandleWritable, with what each send returns as an argument;
--   `closed` where it calls CloseConnection, which may find nothing under that descriptor.
--   Connection/Timeout: ComputePollTimeout, and the sweep at the start of ProcessEvents, with the clock
--   as an argument; unsigned long is 64 bits.
-- Server/System: what the handlers ask of the system is the record `System`, the answers during one
--   call, and what they do to it is the record `World`: a log of files written and removed, directories
--   made, programs started, descriptors closed, with the two static counters and m_cgiFdToClient.
-- Server/Reply, Server/Upload, Server/Handle: HandleReadable behind a complete request, one definition
--   for each branch. Server/Readable: its loop, with what recv returns as an argument. Readable/Confined: files.
--   Readable/Reachable: the calls of the handlers on one connection as the steps of a relation.
-- Server/Multipart: parseContentDisposition and parseMultipartFormData, with the places in the body as
--   numbers, as in the code; each round that goes on does so from a place further on, so that one more
--   round than there are bytes is enough.
-- Server/Cgi: MaybeStartCgi. Cgi/Environment: the environment that it builds.
-- Server/Output: DriveCgiIO, with what write, read and waitpid give as an argument.
-- Server/Descriptor: FD of docs/server/FD.hpp over a list of open descriptors; dup is an argument.
--   Server/Clients: the map of connections, a list in the order of its keys, with AcceptNew,
--   CloseConnection and BuildPollFds. Server/Event: HandleCgiEvent and ReapCgi.
--   Clients/Laws: what is found in the map.
-- Server/Loop: ProcessEvents, the sweep and the dispatch, over the record `Server` of the members that
--   change and the open descriptors. An `Entry` is an element of m_pfds behind poll, with what the
--   system gives while it is handled. An exception of Parse shows as `left`. Loop/Kept and Loop/Sound:
--   the parsers of all connections. Loop/Others: the other connections. Loop/Rounds: PollOnce,
--   Shutdown and the loop of docs/main.cpp, with as many turns as there are `PollRound`s.
-- Server/Listen: OpenListeningSockets, with the copies of FD that push_back makes. Listen/Kept: the
--   open descriptors. Server/Program: main of docs/main.cpp, and ParseFile.
-- Wrapper/Storage, Wrapper/Maybe, Wrapper/Either: Option and Result (src/option/option.hpp and
--   src/result/result.hpp) over storage that is raw or holds a live object, so that reading or ending
--   an object that is not there shows as `fault`. The copy constructor is a parameter and may throw.
--   Wrapper/Assign: their assignments.
-- Wrapper/Util/Maybe and Wrapper/Util/Either: the version of docs/util/OptionResult.hpp over the same
--   storage, where the operator= of the value type is a parameter too. Util/Assigned, Util/History and
--   Util/Emptied: their assignments and histories of changes.
-- Dump/Comments: RemoveComments of docs/parse_and_dump.cpp, with a state for its four flags and a turn
--   of its loop for each character. Comments/States, Comments/Again, Comments/Pieces, Comments/Written:
--   its turns, and what it leaves. Dump/Main: ReadFile, WriteFile and main, over the record `Files`.
--   Dump/Runs: runs of main.
--
-- Not modelled: the calls of the system themselves, which are parameters; the signal that ends the
-- loop; the addresses given to bind; the messages on std::cerr and std::cout; JsonValuePtr, which owns a
-- pointer, and the pointers that Get and GetErr give; src/main.cpp and include/selfserv.h, which only
-- print and declare.
pub mod Base
pub mod Config
pub mod Dump
pub mod Http
pub mod Json
pub mod Server
pub mod Wrapper
