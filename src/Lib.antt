-- ===== src/Lib.antt =====
-- undervest is a sendmail milter: it looks an envelope recipient up in the recipients of its domain
-- and, if there is none of that name, searches for similar ones, to fix or to suggest them.
--
-- The parts modelled, in the order in which they use each other:
--   Scaled         include/scaled.h: the fixed-point scores, at the instances the matcher uses.
--   Substring      include/substring.h: comparison of text slices; its child Search has the searches.
--   Crc32          src/milter/crc32.cpp, include/crc32.h: the CRC by a table, and the bitwise one that
--                  the comment there describes.
--   Stringlib      include/stringlib.h: `trim`, `implode` and `strtolower`.
--   Matcher        src/milter/matcher.cpp, include/matcher.h: the index from slices to targets,
--                  `add`, and `match`, over a virtual `slice` that is a parameter.
--   Slices         the two `slice` methods in src/milter/domain.cpp: n-grams and words. The length that
--                  the first keeps in an `int` wraps as it does there.
--   Source         src/milter/source.cpp: reading the recipients of a domain through a loader;
--                  Source/Log has the text of a message about a source, Source/Loader the search for
--                  the loader.
--   Domain         src/milter/domain.cpp, include/domain.h: a mail domain with its recipients, the
--                  two matchers over them, and `recipient`, which decides on a recipient. Its child
--                  Lifecycle has `assign`, `load_data` and `refresh`, Loaders `load_loaders`.
--   Configuration  src/milter/configuration.cpp: `recipient`, which takes an address apart and asks
--                  its domain, and `log`. Configuration/Retries has the conversion of the retry
--                  periods.
--   Undervest      src/milter/undervest.cpp: the callbacks for a connection. `envelope_recipient` asks
--                  the configuration and keeps what `end_of_message` does; Undervest/Session puts them
--                  in the order of a message.
--   Scheduler      include/scheduler.h: the queue of timed events that refreshes are put in.
--   FilePath       include/filepath.h: paths as components and a flag, their texts, and how paths are
--                  joined, cut and taken relative to each other.
--   Uri            src/milter/uri.cpp, include/uri.h: the sets of characters and their reading; its
--                  children Host, Reader and Writer have the validity tests, `parse`, and the text
--                  of a URI with the setters.
--   Sendmail       src/loaders/sendmail.cpp: the loader that reads an alias file.
--   Ldap           src/loaders/ldap.cpp: the loader that asks an LDAP server; its filter, and the
--                  addresses that it takes from the answers.
--   Options        src/milter/main.cpp: the arguments of the program.
--   Run            src/milter/main.cpp: the steps of `Globals::run` behind the arguments, and what it
--                  calls at its end.
--   Reload         src/milter/main.cpp, src/milter/domain.cpp: `reload` and the timed refresh of the domains
--                  in use.
--   Daemon         include/daemon.h: the user, the group and the files of the process. Its children
--                  have the lock (Locks), the calls that change the identity (Identity), the file
--                  descriptors (Descriptors) and the rest of the start (Startup).
--   Milter         include/milter.h: the callbacks of libmilter, over the methods of a context, which are
--                  a parameter; its children have the callbacks of a connection in order (Callbacks),
--                  the registration of the filter (Setup) and what a context asks of libmilter
--                  (Service). Undervest/Callbacks has the methods of the program's own contexts.
--   Prelude        tests, lists, byte strings and integers that the others share.
--   Tests          concrete runs, and the theorems at concrete inputs.
--
-- Texts are lists of byte values, and a pointer to a text is its contents. Machine integers keep
-- their wrap-around (`u32`, `u16`, `to_short` and the powers of 2 in Scaled). `std::unordered_map` is
-- an association list and `std::unordered_set` a list; what a theorem says does not depend on their
-- order. `std::sort` is insertion sort; where items can be equal, the theorems hold for every
-- order of these. A read out of range is `none`. An exception is a value of `Failure`, for
-- `AlreadyLogged` and the exceptions of the standard library, or `none` in FilePath and Uri.
-- System calls, libmilter and libldap are parameters: what they give is an argument, and what is asked
-- of them is a list of calls in their order. The configuration in use is shared between
-- connections; here it is a field of the connection, and what a callback changes in it is
-- the new value. What a loader gives for a source is a parameter of the definitions that read
-- sources. The word slicer is a loop on fuel: the length of the text is enough, since each round
-- reads a character or more; the loop of `FilePath::assign` too. Three
-- rounds are enough for the loop of `close_all` that opens descriptors, and for a reader of LDAP
-- addresses one call more than there are addresses; theorems of Daemon and Ldap say so. An iterator over a text is the text
-- from its place on, and a list that `normalize` shortens in place is kept apart in the components
-- done, the last one first, and those to come. A `char` is signed, as on x86.
--
-- Not modelled: libmilter itself, the lock and the version of include/milter.h, the blocking of signals,
-- libldap, the dynamic linker behind include/cdlfcn and the libconfuse parse of the
-- configuration file, which are calls of systems outside of the repository; and, so far,
-- the threads of src/milter/main.cpp and the operators of include/scaled.h that the matcher does not use.
pub mod Configuration
pub mod Crc32
pub mod Daemon
pub mod Domain
pub mod FilePath
pub mod Ldap
pub mod Matcher
pub mod Milter
pub mod Options
pub mod Prelude
pub mod Reload
pub mod Run
pub mod Scaled
pub mod Scheduler
pub mod Sendmail
pub mod Slices
pub mod Source
pub mod Stringlib
pub mod Substring
pub mod Tests
pub mod Undervest
pub mod Uri
