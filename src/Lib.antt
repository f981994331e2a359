-- ===== src/Lib.antt =====
-- QuickIO: a server for events over persistent connections, written in C.
--
-- A client sends events as bytes over one of several protocols. A protocol finds the events in
-- the client's read buffer and routes each by its path; the path is cleaned and looked up in a
-- prefix tree of events, which gives the event and the rest of the path. Clients subscribe to
-- events, and a subscription is shared by every client that has it. A callback that the server
-- registers on a client is named by a number that the client sends back.
--
-- The files, and the code that they model:
--   * Path: `evs_clean_path` and `evs_make_path` of src/evs.c.
--   * Query: src/evs_query.c and `evs_add_handler` of src/evs.c; Query.Release frees the tree.
--     The tree is a data type with a function from an index to a child; an index outside `childs`
--     is a result of its own.
--   * Sub: src/sub.c and src/atomic.h. The store is the memory of subscriptions and the tables of
--     all events. What runs under one lock or as one atomic operation is one step.
--   * Client.Callbacks, Client.Subs and Client.Data: src/client.c.
--   * Buffer, Wire: reading and writing a GString through pointers; the types of src/protocols.h.
--   * Raw: src/protocols_raw.c.
--   * Rfc6455: src/protocols_rfc6455.c. A word of 128 or 64 bits is the bytes that it has in
--     memory. The upgrade from HTTP is in Protocols.Dispatch.Upgrade; SHA1 and Base64 are
--     arguments.
--   * Protocols: src/protocols.c. `_find_handler` and `_route`, which is given as many rounds as
--     the buffer has bytes, and one more; Protocols.Dispatch has the rest, the table of
--     protocols, src/protocols_flash.c and the pass of src/periodic.c over one client.
--   * Http: src/protocols_http.c. Http.Poll has the clients in a list, in which a client's
--     address is its place, with the pointers `http.client`, the references and the responses;
--     Http.Text the bytes; Http.Session the tables of sessions; Http.Route the requests. A
--     function whose parts run under different locks is modelled with no other thread between
--     them.
--   * Evs: src/evs.c, with the broadcasts in Evs.Broadcast, what an application keeps of a
--     subscription in Evs.Info, and src/evs_qio.c (Evs.Qio). What is handed to `protocols_send`
--     is kept in a list; `qev_json_pack` and `qev_json_unpack` are arguments, and so are the
--     functions of an application and the subscription that `sub_get` finds. Evs.Shared has
--     `evs_on` and `evs_off` once more, over the subscriptions that all clients share
--     (src/client.c, src/sub.c).
--   * Qev: the functions of src/qev.c that quick-event calls for one client, from its opening to
--     its freeing, each with all that it does to the client's parts.
--   * Config: the options of src/config.c with their validators, and the share of subscriptions that
--     src/client.c is told of.
--   * Apps: src/apps.c. Opening a shared object and calling its functions are arguments.
--   * Common: names and lemmas that all share.
--
-- Pointers are numbers and functions given by an application are numbers or arguments. A byte is
-- a number below 256. Counts of 16, 32 and 64 bits wrap where the code's do. Loops are recursion
-- on the list that they read, or count down the slots or words that they visit; only the loop of
-- `_route` is given a number of rounds, which is proved enough on buffers of whole frames.
-- quick-event and GLib are not in the repository: `qev_safe_uadd`, `g_ascii_strtoull`,
-- `g_utf8_validate` and the printing of numbers are the fields of Wire.Platform, with the laws
-- that Wire.Lawful names; `qev_fair_use`, `qev_list_add` and the clock are arguments.
--
-- Not modelled: statistics, locks as such, the registration of options with quick-event, the
-- start and the end of the process (src/quickio.c, src/main.c); the HTTP request parser and the
-- JSON functions of quick-event, which are arguments; the test client, the page of HTML and the
-- benchmarks.
pub mod Apps
pub mod Buffer
pub mod Client
pub mod Common
pub mod Config
pub mod Path
pub mod Query
pub mod Raw
pub mod Sub
pub mod Wire
pub mod Rfc6455
pub mod Protocols
pub mod Evs
pub mod Http
pub mod Qev
