-- ===== src/Lib.antt =====
-- amarr makes aMule look like qBittorrent and like a Torznab indexer, so that Sonarr and Radarr can
-- search and download on the eD2k network. The web interfaces (amarr/torrent/api.py,
-- amarr/torznab/api.py) pass requests to the torrent service and to the indexers; the torrent service
-- (amarr/torrent/service.py) merges aMule's two lists of files into one list of torrents, sends aMule
-- commands and keeps the category of each hash in a store (amarr/category/store.py); the client under
-- amarr/jamule speaks aMule's External Connection protocol: requests and responses are packets of
-- nested tags (amarr/jamule/ec).
--
-- Which file models which part:
--   Prelude       the shared names, Boolean tests on numbers, lists and integers
--   Py            what the program uses of Python: exceptions as values (Py/Result), indexing and
--                 slicing with negative positions (Py/Seq), struct (Py/Struct), UTF-8 (Py/Utf8),
--                 int, str and split (Py/Decimal), URL quoting (Py/Url), base32 (Py/Base32), equality (Py/Equality), an SQL table (Py/Table)
--   Ec/Encoding   amarr/jamule/ec/encoding.py: header numbers, fixed in size or as UTF-8
--   Ec/OpCode, Ec/TagName, Ec/TagType   the enumerations of amarr/jamule/ec/codes.py
--   Ec/Tag        amarr/jamule/ec/tag.py: tags (Ec/Tag), the value of each class (Ec/Tag/Values),
--                 the accessors (Ec/Tag/Find), TagEncoder and TagParser (Ec/Tag/Codec), and the wire
--                 format of the docstring written down apart from them (Ec/Tag/Wire)
--   Ec/Packet     amarr/jamule/ec/packet.py: Flags, Packet, _read_n (Ec/Packet/Stream), PacketWriter
--                 (Ec/Packet/Writer), PacketParser (Ec/Packet/Parser)
--   Jamule/Model  amarr/jamule/model.py: the files that aMule reports, from the subtags of a tag
--   Jamule/Request   amarr/jamule/request.py: one function for each request
--   Jamule/Response  amarr/jamule/response.py: the responses and parse, with the lists of files and of
--                 categories (Jamule/Response/Lists), the statistics (Jamule/Response/Stats) and the
--                 state of aMule's connections (Jamule/Response/Connected)
--   Jamule/Password  amarr/jamule/password.py
--   Jamule/Connection  amarr/jamule/connection.py: AmuleConnection over a network; Ec/Packet/Unread is
--                 where the packet parser leaves the reader, also when it raises
--   Jamule/Client amarr/jamule/client.py: AmuleClient over send_request, and as the client of the
--                 torrent service (service_client)
--   Magnet        amarr/magnet.py: links, their text, and the ed2k links they stand for
--   Jamule/Hex    bytes.hex and bytes.fromhex, by which hashes are named
--   Cache         amarr/cache.py: search results with a time to live
--   Kad/Session   amarr/kad_session.py: the pool of contacts and the timers, as a step relation; the
--                 choice of the seeds and the search itself are left out
--   Category      amarr/category/store.py: SqliteCategoryStore as two tables (Category/Store)
--   Torrent       amarr/torrent/models.py and amarr/torrent/service.py: TorrentService as actions on
--                 the state of aMule, of the disk and of the store
--   Torznab/Feed  amarr/torznab/models.py: the feed, without its XML
--   Torznab/Indexer  amarr/torznab/indexer/base.py: the pipeline from a query to a feed, with the cache;
--                 the normalization of queries is in Torznab/Indexer/Query
--   Torznab/Merge amarr/torznab/indexer/aggregate.py and _perform_queries of amarr/torznab/api.py
--   Torznab/Api   the queries of amarr/torznab/api.py
--   Ed2k/Tags     amarr/ed2k/core.py: read_tag and decode_str
--   Ed2k/Server   amarr/ed2k/server.py: the tree of a search, the results, the bytes of a packet
--   Ed2k/Results  amarr/ed2k/core.py: filter_by_query, sanitize_filename and SearchResult
--   Ed2k/Session  amarr/ed2k_session.py: Ed2kServerSession, over a record of the operations of
--                 Ed2kConnection and the clock (Server)
--   Tests         the theorems with conditions, applied to concrete input
--
-- How state and operations correspond: a function that raises returns a Result, whose errors have one
-- constructor for each exception class. A stream is the list of chunks that its read calls deliver.
-- The service's methods are functions from a state to a result and a state; the state pairs what the
-- client and os.remove act on, which is a parameter (Client), with the store. A float is kept as the
-- text that float gives back (in tags) or as a numerator and a denominator (the progress). A
-- connection is a flag and a reader; its sockets are a record of operations on a state (Network),
-- where an exchange is sendall with what the reader delivers before the next request. A search waits
-- on a clock (Clock). An engine is a record of its raw search and its clock (Engine), and the tables
-- of Unicode are a record (Unicode), with NFKD and casefold in another (Folding). The session of eD2k
-- waits on the clock of its Server. The zlib, MD5 and float of the host are parameters: compress,
-- inflate and parse_float, with the hypothesis that inflate restores what compress made, and that
-- float reads back its own text.
--
-- Bounds and fuel: the wrap-around of 8, 16, 32 and 64 bits is written out as a remainder. The tag
-- parser takes the room on the interpreter's stack as an argument and ends with recursion_error when
-- that is used up; a tag is read back as soon as the room is at least its nesting. The other loops
-- run on the structure of their input or on a count that the code has, and the loop of search_sync,
-- which has neither, on a number of rounds, of which timeout / 0.1 s + 2 are enough. The loops of the
-- eD2k session run on a number of rounds too, of which the ticks of the timeout + 2 are enough. Of
-- the loops on a count: the decimal digits of n take at most n + 1 rounds, and each round of the
-- UTF-8 decoder takes a byte.
--
-- Not modelled: logging, representations and equality of objects, locks; the messages of exceptions;
-- int on text outside ASCII; the fields of TorrentInfo that never change and the Preferences model;
-- the setting aside of old category files; the text of the JSON in the cache; and the modules
-- amarr/config.py, amarr/app.py and amarr/homepage.py; of amarr/ed2k the login packet, recv_packet,
-- the text output, MD4, UPnP and Kad; of amarr/torznab the XML, the routes and
-- the engines that call aMule, eD2k and Kad. The threads of the aggregation are left out: it takes
-- what the engines' searches return, in the order of the engines.
pub mod Prelude
pub mod Py
pub mod Ec
pub mod Ed2k
pub mod Jamule
pub mod Kad
pub mod Magnet
pub mod Cache
pub mod Category
pub mod Torrent
pub mod Torznab
pub mod Tests
