-- ===== src/Lib.antt =====
-- send.to is a file sharing service: a client (client/, cmd/send/) that may encrypt a file end to end
-- and uploads it in chunks, and a server (server/) that stores uploads, hands them out under limits and
-- deletes them. This library models the logic of both in five parts.
--
-- E2e (client/e2e.go, all of it but the random key and prefix). A plaintext or ciphertext on its way is
--   a `Source`, the bytes that will come and how they end; `encrypt_chunks` is the goroutine of
--   `chunks`, `decrypt_chunks` the `Read`/`next` loop of `e2eReader` until it returns an error,
--   `reader_from` is `ReaderFrom`, and E2e/Key has the key in a link's fragment. AES-GCM (`Aead`), JSON
--   (`MetaJson`) and base64 (`KeyText`) are parameters with what they promise; E2e/Toy is one that
--   keeps the promises. Counters wrap at 32 bits and sizes at 64 as in the source. The loops run on
--   fuel, one more than the number of bytes, which is enough because every round but the last takes at
--   least one byte.
-- Range (server/storage/common.go): `ParseRange`, `Range` and `AcceptLength` on 64-bit words.
-- Server, the handlers. `World` is the state of an instance: the files (Server/Fs), the outcomes of the
--   next calls of the operating system (a call works or fails, and a write that fails has written its
--   first n bytes), the clock in seconds, the draws of crypto/rand, the answers of the rate limiter, the
--   storage counter, the metrics. A handler is an `Exec`: it goes on with a value or has answered.
--   Server/Storage is server/storage/local.go, Server/Quota server/quota.go, Server/Owner
--   server/owner.go, Server/Upload the parts of server/upload.go and server/token.go that uploads share,
--   Server/Session server/resumable.go with Session/ContentRange, Session/Patch and Session/Create,
--   Server/Lifecycle the limits and the deletion in server/handlers.go, Server/Redact
--   server/redact.go, and Server/Caching server/caching.go. Server/Post has the rules for
--   postconditions of an `Exec`. Upload/Put has the PUT and the POST handler with their spool file, and
--   Download the GET and HEAD handlers of server/download.go. Server/Locks has `lock` and `unlock` of
--   server/handlers.go as steps of any number of goroutines on one key of the table, and
--   Server/IpFilter server/ip_filter.go over the addresses and networks of package net.
--   Server/Collection is server/collection.go, and Server/Archive server/archive.go, its keys, in
--   Archive/Link the way from the link of a collection to them, and in Archive/Stream the members of an
--   archive. Storage/Walk has `Purge` and `Usage` of
--   server/storage/local.go, Server/Purge the rounds of `purgeHandler` with the seeding of the storage
--   counter, and Server/Auth the basic authentication of server/auth.go. The stored JSON records, SHA-256, OpenPGP, the MIME table, ClamAV and net/url are fields of `Env` and
--   `Request`; Server/Toy is an `Env` to run.
-- Client: Client/Args is `reorderArgs` of cmd/send/args.go, with the commands and flags of an
--   application as data and package flag as `parse_flags`; Args/Reading tells what a command line
--   says without its loop. Client/Resumable is client/resumable.go: `upload_session` is the loop of
--   `UploadSession` over a server that is an interface, a record of its two requests. It runs on
--   fuel, one for each round; Client/Resumable/Ends says how much is enough. Client/Upload is
--   cmd/send/upload.go with `CreateSession` and `SessionStatus`, and Client/Pending client/resume.go,
--   the file in which it records what is left to upload. Client/Download is `Download` of
--   client/client.go with `runGet` and `decryptFile` of cmd/send/main.go, on the files of
--   Client/Disk. Client/History is client/history.go. Calls of the operating system are arguments
--   there, each of which works or fails.
-- Prelude: lists, texts, decimals and tests on native numbers; Prelude/Codec has codes of data as bytes,
--   with which the parameters for JSON are filled in the tests.
--
-- Not modelled: each handler runs alone, but for the steps of Server/Locks; server/storage/s3.go,
-- the formats of archives, the pages and their templates, the choice of a language, the fixed headers and
-- redirections, the metrics page, the scanners' protocols, the routes and options of the server, the
-- settings of the client, the HTTP of its requests and the rest of the command line: they are I/O, or not
-- yet here.
pub mod Prelude
pub mod E2e
pub mod Range
pub mod Server
pub mod Client
