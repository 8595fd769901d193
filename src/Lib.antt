-- ===== src/Lib.antt =====
-- ii-go is a node of the ii network (ii/), a server for it (ii-node/) and a command line tool
-- (ii-tool/). Messages are kept as lines `id:base64` of a bundle file, beside an index file of lines
-- `id:echo:offset:to:from:repto`, and an index in memory that follows the file. Users are lines of
-- points.txt, echo areas lines of list.txt.
--
-- Which file models what:
--   Base, Strings, Decimal, Base64, Dict: byte strings, signed integers, and what the program calls of
--     Go's strings, strconv, fmt, encoding/base64 and maps.
--   Msg/Tags, Msg/Valid, Msg/Encode, Msg/Decode, Msg/Line: ii/msg.go (Tags; MsgId and the tests;
--     String and Encode; DecodeBundle; DecodeMsgline).
--   Db/Index, Db/Load: _CreateIndex and LoadIndex of ii/db.go; Db/State and Db/State/Files: DB and
--     its files (append_file, filesize, FileLines).
--   Db/Access: _Lookup, Lookup, Exists, LookupIDS, _GetBundle, Get, _Store, Store, Edit, Blacklist.
--   Db/Query, Db/Select: Query, Access, _Match, Match, SelectIDS; Db/Areas: Echoes;
--     Db/Topics: GetTopics; Db/Lock: Lock and Unlock.
--   Db/Log: the abstract view of a database, the list of the messages that were stored.
--   Users, Users/Policy, Users/Load, Users/Account: UDB of ii/db.go; Echoes: EDB of ii/db.go.
--   Node/Points: PointPolicy, PointMsg and the selection of get_ue of ii-node/main.go; Node/Handlers:
--     get_ue and the handlers of main; Node/Handlers/Bundles and Node/Handlers/Lists prove of them.
--   Node/Html, Node/Links, Node/Pager, Node/Texts, Node/Texts/Attached: str_esc and msg_clean,
--     msg_esc, makePager, msg_quote and msg_trunc, www_base64 and www_avatar of ii-node/web.go;
--     Node/Xpm: ParseXpm of ii-node/xpm.go.
--   Node/Routes: which handler _handleWWW calls for a path; Node/Pages, Node/Pages/Threads and
--     Node/Pages/Forms: www_query, www_topics and www_topic, www_reply and the form of www_edit.
--   Node/Web: www_new, www_edit, www_blacklist and msg_access on the values of a form; Node/Accounts:
--     www_register and www_login; Node/Admin: the commands of the superuser on users.
--     Node/Points/Laws, Node/Points/Posting and Node/Web/Laws use the rules of Db/State/Ends for
--     what holds after a method of DB, and Db/Log/Keeps.
--   Net: Node, Fetcher, Store, List, Send and Connect of ii/net.go; Net/Batches, Net/Storing,
--     Net/Missing, Net/Fetching and Net/Adaptive prove of it.
--   Tool/Clean: the command clean of ii-tool/main.go; Tool/Clean/Spec: what it should write;
--     Tool/Import: the command store; Tool/Commands: search, blacklist, get, select and sort;
--     Tool/Gemini: gemini and text_trunc, and the command gemini in Tool/Gemini/Command.
--
-- How the code is read. Strings are lists of bytes. State is passed on explicitly: a method of DB is
-- a function from the database to a result and the database, and a fault that ends the goroutine
-- (a write to a nil map, a nil pointer, an index out of range) is an error of that result. A map is
-- an association list with one entry per key. The locks around the methods are left out, so that each
-- method is one step.
--
-- Bounds. Numbers are natural or signed integers without a bound; where the width matters it is
-- written out (offsets below 2^63, ids of users as int32). Decimal printing takes at most 20 digits,
-- and an int64 has at most 19. All loops are recursions on the list of lines or of messages, or on
-- the tries that are left, but for the walk of GetTopics and the loop of get -t, which are on fuel: a
-- number above that of every entry is enough where entries are younger than their parents. The limit
-- of Fetcher and the offset of a page are int64 and wrap around (Base/Int).
--
-- Parameters: sha256, the clock, regular expressions, the outcome of each mkdir, the address of a
-- client and its country, and the answer to the GET of a url, which is the same whenever it is
-- asked for during a fetch; the image package and png.Encode; fmt's reading of colors and of the
-- range idx:lim; the mux of net/http, which calls a handler for a path that begins with its
-- pattern. Where a theorem needs it, sha256 is assumed to return 32 bytes.
--
-- Not modelled: errors of the file system other than a missing file, and log output; Post of
-- ii/net.go, whose form is encoded by net/http, and the goroutines of Fetch, of which the areas
-- that it starts are modelled; the templates, the feeds, the whois client and the cookies of
-- ii-node/web.go and the flags of ii-node and ii-tool, which are glue; the commands of ii-tool that
-- only call ii/, and template; contrib/secure, a proxy for TLS of library calls.
pub mod Base
pub mod Strings
pub mod Decimal
pub mod Base64
pub mod Dict
pub mod Msg
pub mod Db
pub mod Users
pub mod Echoes
pub mod Node
pub mod Tool
pub mod Net
