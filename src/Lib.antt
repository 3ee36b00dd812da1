-- ===== src/Lib.antt =====
-- rsync-sjtug keeps mirrors of rsync repositories in an object store: rsync-fetcher copies a
-- repository from an rsync server, rsync-gateway serves a revision of it over HTTP, and rsync-gc
-- drops old revisions and the files that only they need. They share the tables in Postgres and the
-- names of the objects in the store.
--
-- Database models rsync-core/src/pg.rs: the tables are lists of rows (Database.Revisions), the
-- identity columns are counters, and a statement is a function from tables to tables. Database.Order
-- has the order that `ORDER BY revision DESC` gives, and Database.Insert the task that inserts
-- objects, over the events that it sees: the timer, an object, the closed channel. Its statement
-- (`insert_objects`) fails on the unique index and the checks of the table. The statements of the plan
-- (`diff_and_apply`) add their rows without those tests (`append_objects`): they insert into a new
-- revision, from a list of files in which no name is there twice.
-- Gc models rsync-gc/src/pg.rs, s3.rs and main.rs, with sqls/hashes_to_remove.sql and the names of
-- objects (`ToHex` in rsync-core/src/utils.rs). `run` is one run of the program on the tables and the
-- keys in the store. Gc.Policy is about which revisions are kept, Gc.Safety about which files.
-- Fetcher models rsync-fetcher/src. Stream reads integers from what the server has still to send
-- (rsync/envelope.rs, `read_rsync_long`), and Envelope is the reader of the frames in the same file:
-- `poll_round` is a round of its loops, `poll_read` a poll. Handshake is rsync/handshake.rs with
-- version.rs and filter.rs. Checksum is rsync/checksum.rs, Receiver rsync/receiver.rs, and FileList
-- rsync/file_list.rs, with the names of their functions. Generator is rsync/generator.rs over what
-- happens to it (`Event`), and Downloader rsync/downloader.rs. Uploader is rsync/uploader.rs: a worker
-- (`Worker`) stands where the source awaits, and a schedule says which worker goes on. Plan is plan.rs
-- with its queries under sqls, and Stats the figures of a plan (utils.rs). Fetch is main.rs with pg.rs:
-- `fetch` is a run of the program on the tables and the store, and `update_parent_ids` is
-- sqls/update_parent.sql. Bytes are numbers below 256, a word of w bits is a number with `% 2 ^ w`
-- written out, and a negative i32 is its bit pattern. `Result` has a value, an error, or a panic
-- (`fault`).
-- Gateway.Entries models rsync-gateway/src/pg.rs (`entry_of_path`) and sqls/realpath.sql, and
-- Gateway.Realpath rsync-gateway/src/realpath.rs with the splitting of Unix paths that it takes
-- from `std::path`. Gateway.Keys compares the names of files in the store that the programs make
-- (rsync-gateway/src/path_resolve.rs and opts.rs, rsync-core/src/utils.rs). Gateway.Active has the
-- query for the latest live revision and the updates of the active one
-- (rsync-gateway/src/state.rs), which invalidate the cache, and Gateway.Listing what a path shows
-- (rsync-gateway/src/pg.rs, `list_directory`, and path_resolve.rs). Gateway.Cache is
-- rsync-gateway/src/cache.rs, a request being one step, over two caches that do what the
-- documentation of their crate says (`IsCache`). Gateway.Navbar is `comps_to_navbar` of
-- rsync-gateway/src/render.rs, with a browser's resolution of relative links (`follow`), and
-- Gateway.Config `validate_config` of rsync-gateway/src/opts.rs.
-- System puts runs of rsync-fetcher and rsync-gc on one repository one after the other, as the
-- exclusive lock that both main.rs take has it: `Step` is a run, `Reaches` any number of them.
-- Prelude has the helpers that the parts share, Tests the runs on small inputs.
--
-- Fuel: the loop of `realpath` gets as many rounds as the path has components, and 40 times as many
-- as the longest target of a link, and the loops over a stream get as many rounds as the stream has
-- bytes, of which each round takes some. A loop over blocks gets as many rounds as there are blocks. A
-- poll of the frames gets two rounds for each byte that the source has, and two more. The loop over
-- the server's lines in a handshake takes a number of rounds, as there is a stream for which none is
-- enough.
--
-- MD4, Blake2b, the SIMD implementation of MD4 (an adapted copy of a third-party library in
-- rsync-fetcher/src/rsync/checksum/md4_simd), the unstable sort of a list of files, the integer
-- square root, base64, UTF-8, white space, the scanning of a version, the name of a basis file, the
-- cleaning of a path, the tests of a mode, the signing of an address, the encoding of a name, the
-- caches, the serializer, the compression and the test whether entries are unique are parameters.
-- Not modelled: locks, connections, logging, progress bars, the web framework, the templates of
-- pages, the legacy Redis storage and the migrations, and a request to the cache that an
-- invalidation overtakes. What the receiver queues is an argument of `fetch`: Receiver and Fetch
-- are not yet joined.
pub mod Database
pub mod Fetcher
pub mod Gateway
pub mod Gc
pub mod Prelude
pub mod System
pub mod Tests
