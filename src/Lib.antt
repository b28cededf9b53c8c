-- ===== src/Lib.antt =====
-- Verification library of usebin, a paste bin that keeps its pastes on Usenet. The browser encrypts a
-- paste, wraps it as yEnc and posts it (frontend/usebin.ts); the server (server.go and the files
-- beside it) hands articles on; the browser fetches an article, decodes the yEnc (frontend/yenc.ts,
-- with frontend/bytes.ts) and shows the text. The library models the browser's part: the client, the
-- yEnc codec, the byte helpers and the decoder of legacy text that plain files are shown with
-- (frontend/text.ts).
--
-- Files and what they model
--   * Base: Boolean tests and lists over the native numbers, signed integers, bytes and strings. A
--     string is the list of its UTF-16 code units.
--   * Js: numbers, which are NaN or an integer, with their comparisons; `parseInt` and `trim`
--     (Js/Parse); template printing, `toString(16)` and `padStart` (Js/Print). Js/Print/RoundTrip has
--     that `parseInt` reads what is printed.
--   * Utf8: `TextEncoder` and `TextDecoder` of the platform, from the Encoding Standard.
--   * Bytes: frontend/bytes.ts.
--   * Yenc: frontend/yenc.ts. The variables `encoded`, `s` and `file` of `decode` are the fields of the
--     record `Decoder` (Yenc/Reader); each inner function is a function of the monad `M` of that
--     state, whose outcomes are a value, one of the errors thrown, or `spin`. Yenc/Header is
--     `readHeader` and `consumePart`, Yenc/Data is `decodeData`, Yenc/Trailer is `consumeEnd`,
--     Yenc/Decode puts them together, and Yenc/Encode is `encode`. The names are those of the source,
--     in snake case.
--   * Yenc/Libraries: the interface to `@stablelib/bytewriter` and `crc-32`. A writer keeps the bytes
--     written to it in order; of the checksum nothing is assumed.
--   * Yenc/Fuel, Yenc/Sound, Yenc/RoundTrip and the modules of Yenc/Encode hold the proofs.
--   * Charset: frontend/charset.ts, the tables as lists of strings. Text: frontend/text.ts; a value that
--     is `undefined` is spelled out where a template or a concatenation does so. Text/Pages holds the
--     proofs.
--   * Client: frontend/usebin.ts. A call (Client/World) takes the world, which is the page, the numbers of
--     random draws and of keys so far, and the requests sent, and returns or throws in another.
--     Client/Urls and Client/Location are the text around URLs, `parseFileURL` and the URL that
--     is pushed; Client/Upload is `postFile`, `yEncFileEncode`, `randomName` and `randomInt`;
--     Client/Download is `main`, `fetchAndDisplayFile`, `fetchAndDecryptFile` and `fetchFile`;
--     Client/Saving is `scheduleTrySave` and `handleTrySave`. Client/Saving/System is the page
--     while it runs, as a step relation: input, events, the timer, saves that wait for their posts,
--     and the file that `main` waits for, in any order.
--   * Client/Platform: what the client takes from the browser and from `@stablelib`, with what it relies
--     on: that a box opens with its key, that hex and base 64 read back what they write, the lengths
--     of keys, hashes and boxes, and that a random number is below 1. The server is a function
--     of what it was sent before.
--   * Tests: runs of the definitions, and the theorems at concrete inputs.
--
-- Bounds. The loops of `decode` recurse on a bound on their rounds, and give `spin` where it is used
-- up; `decode` takes the length of the input plus two for each loop, since every round but the last
-- takes a byte off the input, unless it finds none left. `encode` recurses on the data. Numbers are
-- exact integers, as they are in the program below 2^53; `byteAdd` and `>>> 0` keep their wrap-around.
-- Printing recurses on the number, which is at least its count of digits. The loop of `postFile` has four
-- rounds, and its last one returns or throws. `randomInt` takes the product of the random number and
-- its bound exactly, where the program rounds it to a double before it takes the floor; of the
-- result only that it is below the bound matters to a theorem.
--
-- Interleavings. In Client/Saving/System a post is one step, at the time when it is answered: it reads and
-- changes nothing of the page, and draws its numbers and keys from streams of which nothing but their
-- ranges is assumed. Of a text area the value is modelled, in which every line end is a line feed;
-- of the location the path and the fragment.
--
-- Not modelled: the log line of `main`, the query of a URL and the escapes of other characters in a
-- path, which no pushed URL has; the time that a timer takes; the server's Go files; the bundler's
-- configuration and the bundle that it generates. The messages of errors are the constructors of
-- `YencError` and `ClientError`, with the values that they show.
pub mod Base
pub mod Js
pub mod Utf8
pub mod Bytes
pub mod Yenc
pub mod Charset
pub mod Text
pub mod Client
mod Tests
