-- ===== src/Lib.antt =====
-- GrayCore, a C++ base library: a model of its data structures and algorithms, with theorems.
--
-- Parts, and the files that model them (paths are of the repository):
--
--   Queue/Static     include/cQueue.h, cQueueStatic: a ring of elements that one thread may write
--                    while another reads. Queue/Static declares the record of the two indexes and
--                    the block and the operations (Read1, Write1, ReadSpanQ, WriteSpanQ, AdvanceRead,
--                    the quantities); Threads splits Write1 and Read1 into their stores; Queue/Fifo
--                    is the abstract bounded queue that the others refine.
--   Queue/Linear     include/cQueue.h, cQueueIndex, cQueueRead and cQueueRW, and SeekQ of
--                    src/cQueue.cpp: a queue that does not wrap and that moves down what is left to
--                    read when reads are committed. Contents says what it holds, Writing and Reading
--                    refine Queue/Fifo.
--   Bits             include/cBits.h: counting, finding and turning the bits of a number of any width.
--   Calendar         include/cTimeUnits.h and src/cTimeUnits.cpp, cTimeUnits: the units of a time,
--                    the leap rule, day of the week and of the year (Leap, DayNumber, Dates), the
--                    sums AddMonths, AddDays and AddSeconds (Add and its children), the summer time
--                    rule isInDST1 (Dst), Compare, and put_DosDate with get_DosDate (DosDate).
--   Sorted           include/cArraySort.h, cArraySorted, with cSpanSorted of include/cSpan.h: the
--                    binary search FindINearKey and FindINearS (Search), the look-ups and RemoveKey
--                    (Keys), AddSort (Adding), AddArray and isSpanSorted (Arrays), and QSort with its
--                    partition (QuickSort). The two virtual comparisons are the record Sorting, and
--                    the laws that the operations rely on are SortLaws (Laws), which clients prove of
--                    their comparison.
--   HashTable        include/cHashTable.h: cHashTableStruct over buckets that are the sorted arrays of
--                    Sorted, by hash codes, as a map (Entries), and what the operations change in
--                    it (Changes, Deleting, Whole).
--   LinkedList       include/cList.h and src/cList.cpp: nodes and lists at addresses of a store, with
--                    every write to a link. Effects says what an operation writes, Ring what that
--                    makes of the links of one list, Contents when the links of all lists are in
--                    order; then the operations (Inserting, Removing, Moving, Walking).
--   Utf8             include/StrU.h and src/StrU.cpp: UTF8SizeChar, UTF8SizeChar1,
--                    UNICODEtoUTF8Char and UTF8toUNICODEChar.
--   StrChar          include/StrChar.h and src/StrChar.cpp: kinds of characters, case (Case) and digits
--                    (Digits).
--   StrT             include/StrT.h and include/StrT.inl: comparisons (Compare), the order of arrays of
--                    strings, include/cArraySortString.h (Order), searches for characters (Search)
--                    and strings (Find), and wildcards with their limit on the text (Match). The
--                    templates are taken for `wchar_t`, whose characters are not negative; `char`,
--                    which has a sign in some compilers, is not modelled. The comparison of
--                    characters is StrChar's, and the laws of sorted arrays are those of Sorted/Laws.
--   StrNum           include/StrNum.h, src/StrNum.cpp, include/StrChar.h: ULtoARev, toUL, ULtoA,
--                    ILtoA and toIL, with CopyLen of include/StrT.inl.
--   Streams          include/cStream.h, src/cStream.cpp, src/cArchive.cpp: whole spans and packed sizes
--                    of any class of streams that keeps the laws of Laws, cStreamStatic of
--                    include/cStreamQueue.h among them (Static); sizes (Sizes) and the archive
--                    (Archive).
--   ThreadLock       include/cThreadLock.h, include/cLocker.h and src/cThreadLock.cpp: the thread lock
--                    as steps of any number of threads (Exclusion), and the loop of LockThread
--                    (Waiting).
--   ThreadLockRw     include/cThreadLockRW.h: the lock for many readers or one writer, as steps on two
--                    thread locks. Locks takes each of the two as a thread lock of its own, where
--                    the readers are one thread; Excludes is about readers and writers.
--   UInt64           include/cUInt64.h and src/cUInt64.cpp: Divide, bit by bit, SetPowerMod and
--                    EuclideanAlgorithm.
--   Base             names and lemmas shared by all: tests, lists indexed by native numbers, InsertAt
--                    and RemoveAt of include/cArray.h (Insert), signed integers (Int), bits (Bits),
--                    results of comparisons (Compared), loops on fuel (Loops).
--
-- An operation is a function from the old state to the new one. Arrays and blocks are lists; an index
-- outside of an array is an explicit case. Signed `int` values are ℤ of Base/Int with the C++ rules of
-- division; unsigned ones are native numbers with their wrap-around written out, and units of a time
-- are cut to 16 bits where the code stores them. ASSERT and DEBUG_CHECK are not in release builds and
-- do nothing here; what they say is a hypothesis of the theorems that need it. Overflow of an `int`,
-- and the negation of the least INT64, are excluded by the bounds that the theorems state.
--
-- Loops run on fuel where the code has no bound of its own: the binary search takes the size of the
-- array, which it never uses up since every turn narrows the bounds; QSort takes the size of the
-- span, since each part is smaller, and its partition two rounds for each element, since no two swaps
-- follow one another; FindStrN takes a round for each place in the text and each character of what is
-- looked for; WriteSize and ReadSize take ten rounds, seven bits each, for the 64 bits of a size;
-- Highest1Bit and Count1Bits take a round for each bit of the number and one more; EuclideanAlgorithm
-- takes two calls for each unit of the second number and two more, since the smaller number falls in
-- every second call; AddDays takes a number of turns, and the theorems name one that is enough (the
-- days to add and one more, two, or three).
--
-- Not modelled: the other containers, growing queues and the streams over them, most of the string
-- functions, INI files, paths, ranges, and other 64-bit arithmetic, which are of the same kind and not
-- done; reference counts; the locks of the system's own kinds; floating point, for which the kernel has
-- no numbers; and what calls the operating system (files, processes, the clock, memory, logs), which
-- has no logic of its own to state.
pub mod Base
pub mod Bits
pub mod Calendar
pub mod HashTable
pub mod LinkedList
pub mod Queue
pub mod Sorted
pub mod StrChar
pub mod StrNum
pub mod StrT
pub mod Streams
pub mod ThreadLock
pub mod ThreadLockRw
pub mod UInt64
pub mod Utf8
