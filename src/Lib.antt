-- ===== src/Lib.antt =====
-- A verification library for ba6, a multicall binary of Unix utilities (package main of the repository).
--
-- An applet is a function from arguments to an exit status that reads files or standard input and writes
-- standard output (main.go dispatches to it by name). The applets share little state; what carries them
-- is a pure core each, and the library has one module for each applet or shared file it models:
--
--   Base          numbers, lists over them, bytes and texts, `strings.Split` and `Join`, Go results,
--                 readers and buffered writers, 64-bit integers as bit patterns
--   Base          shared: Lists, Split (strings.Split, Join), Lines (ReadString, bufio.Scanner), Int64, Results,
--                 Inputs (openInput of util.go as a parameter), Streams, Decimal,
--                 Commands (operands and exit status)
--   Tr            tr.go: Tr/Sets (inSet, forEachByte, expandClass, complementSet, unescapeByte),
--                 Tr/Expand (expandSet), Tr/Stream (runDelete, runTranslate, runSqueezeOnly),
--                 Tr/Command (cmdTr)
--   Cut           cut.go: Cut/Ranges (mergeRanges, complementRanges, inRanges), Cut/Lists (parseRanges),
--                 Cut/Select (cutPositions, cutFields), Cut/Units (the characters of a line),
--                 Cut/Command (the argument loop, setList, parseCluster), Cut/Run (cmdCut, run)
--   Head          head.go: Head/Count (parseCount), Head/Command (cmdHead, emitFirstLines)
--   Tail          tail.go: Tail (emitLastLines, emitLastBytes), Tail/Command (cmdTail, parseTailCount,
--                 followFile); Tail/Lines and Tail/Chunks are about the ring and the window
--   Uniq          uniq.go: Uniq/Key (the key of a line, uniqSkipFields), Uniq/Emit (the closure emit),
--                 Uniq/Groups (the loop), Uniq/Command (the argument loop, uniqNumber),
--                 Uniq/Run (uniqMethod and the rest of cmdUniq)
--   Xxh64         xxhash64.go: the hash, and Xxh64/Stream about writing in pieces
--   Util          util.go: Util/Options (expandShortOptions), Util/Quote (shellQuoteName, quoteForceName,
--                 quoteLocaleName), and Util/Quote/Shell about how a shell reads a word
--   TestCommand   testcmd.go: TestCommand/Operators (evalTestUnary, evalTestBinary), TestCommand/Parser (testParser),
--                 TestCommand/Run (runTestExpression, cmdTest, cmdBracket); TestCommand/Syntax has the grammar
--                 with its values, TestCommand/Termination and TestCommand/RoundTrip are about the parser
--   Zstd          zstd_raw.go: Zstd/Writer (zstdWriter), Zstd/Reader (readFrameHeader), Zstd/Blocks (readBlock,
--                 finishFrame, compact, Read); Zstd/Written, Zstd/BlockRoundTrip, Zstd/Delivery and
--                 Zstd/RoundTrip are about what is written and read back
--   Xz            xz_raw.go and lzma2Reader of lzma.go: Xz/Check (xzChecker, updateCRC64), Xz/Vli (xzVLI, readXZVLI),
--                 Xz/Writer (xzWriter), Xz/Header (readStreamHeader, parseXZBlockHeader, skipIndex), Xz/Chunks
--                 (lzma2Reader), Xz/Reader (xzReader); Xz/Written, Xz/ReadHeaders, Xz/ReadChunks, Xz/Delivery
--                 and Xz/RoundTrip are about what is written and read back, Xz/Endless about empty buffers
--   Tabs          expand.go and unexpand.go: Tabs/Stops (tabStops), Tabs/Args (parseTabArgs), Tabs/Expand
--                 (expandState), Tabs/Unexpand (unexpandState), Tabs/Run (forEachInput, cmdExpand,
--                 cmdUnexpand); Tabs/Columns, Tabs/Pending, Tabs/Rounds, Tabs/BlankRounds and Tabs/RoundTrip
--                 are about one command after the other, Tabs/NoTabs about expand twice
--
-- How the models read. A Go string or byte slice is a list of numbers (bytes). A Go `int` or `int64` that
-- can overflow is a bit pattern below 2 ^ 64 with signed comparison (Base/Int64); where a value is a
-- length or an index of a list in memory it is a plain number. An index that walks a text is the rest of
-- the text from there on. A loop is a function by clauses; one that jumps takes fuel, a round for each
-- byte, and a theorem says that this is enough. What Go refuses at run time (a slice out of order) is a
-- result of its own. Messages to standard error are data, not formatted text.
--
-- Not modelled: system calls, terminals, sockets and the file systems behind them; the applets that only
-- call those; a write error before the final `Flush`; regular expressions, which the Go library runs.
pub mod Base
pub mod Cut
pub mod Head
pub mod Tabs
pub mod Tail
pub mod TestCommand
pub mod Tr
pub mod Uniq
pub mod Util
pub mod Xxh64
pub mod Xz
pub mod Zstd
