-- ===== src/Lib.antt =====
-- A model of EQueue's discrete-event simulator of accelerator programs.
--
-- The program. A program of the EQueue dialect runs on launchers: the host and the processors and
-- DMA engines that it creates. Each launcher holds at most one operation (its entry), an iterator
-- into a block and, but for the host, a bounded queue of events that others have handed to it.
-- Operations wait for signals, which are counted. Memories, DMA engines and connections are devices
-- on which accesses are booked; the bookings say when an operation ends. The simulator goes round:
-- it fills the entries, looks at the queues, starts the operations, moves the time on to the
-- earliest end, and finishes what has ended.
--
-- The files.
--   Device      struct Device of include/EQueue/EQueueStructs.h: new_device is the constructor,
--               delete_outdated is deleteOutdatedEvents, schedule_queue and schedule_event are
--               scheduleEvent on one queue and on a device, schedule_joint is its overload for
--               several devices.
--   Connection  struct Connection of the same file: schedule_transmission is
--               scheduleTransmission.
--   Memory      struct DMA, struct Memory and the four memories of the same file: access_cycles is
--               getReadOrWriteCycles, transfer_cycles is getTransferCycles.
--   Program     what the simulator reads of an MLIR program, by the accessors and traits of
--               include/EQueue/EQueueOps.td and EQueueTraits.h; get_constant and get_ex_times are
--               getConstant and getExTimes of lib/EQueue/CommandProcessor.cpp.
--   Launcher    OpEntry and LauncherTable of include/EQueue/CommandProcessor.h.
--   Runner      class Runner of lib/EQueue/CommandProcessor.cpp. State has its fields; Signals has
--               updateExecution, updateSignalIds, updateIterState, getSignalId and waitForSignal;
--               Model has modelOp with getAllocBuffer and getAllocDevice; Control has
--               checkControlQueue and checkEventQueue; Entry has setOpEntry; Steps has scheduleOp,
--               finishOp and nextEndTimes; Simulate has the loop of simulateFunction;
--               Build has walkRegions and buildExMap, Ids has buildIdMap, and Run
--               has CommandProcessor::run, which composes them.
--   ScopedMap   class ScopedMap of include/EQueue/CommandProcessor.h.
--   Dialect     the operations themselves. State is MLIR's OperationState as far as they fill it,
--               Builders has the build functions and Parsers the parse functions of
--               lib/EQueue/EQueueOps.cpp, Accessors those of include/EQueue/EQueueOps.td.
--               Types has parseType and printType of lib/EQueue/EQueueDialect.cpp.
--   Names       split and trancate of include/EQueue/Utils.h, and the attribute of names that the
--               builders of components write and getCompStrList reads.
--   Transforms  Tiling has the pass of lib/Transforms/MyLoopTiling.cpp on a band of loops with
--               constant bounds: get_tile_sizes is getTileSizes, construct_tiled is
--               constructTiledIndexSetHyperRect. What MLIR's analyses say of a loop is given.
--               Reorder has the pass of lib/Transforms/LoopReorder.cpp on such loops.
--               Removal has lib/Transforms/LoopRemoving.cpp: walk is walkRegions with the turns of
--               the pass from there. Extraction has lib/Transforms/LowerExtraction.cpp: splat_user
--               and lower_extract are its two patterns, and prune_launch takes unused results off.
--               Parallel has lib/Transforms/ParallelToEQueue.cpp. Tuples is what the last two
--               enumerate.
--               Launching has lib/Transforms/SplitLaunch.cpp and StructureMatching.cpp at one
--               launch or region: split_launch and match_structure are a turn of their loops.
--               Fields has both getField of lib/Transforms/Utils.cpp: get_field inserts
--               operations, and get_original only looks. Copying has MemCopyToLaunch.cpp and
--               MergeMemCopyLaunch.cpp of lib/Transforms at one memcpy: copy_to_launch and
--               merge_launch. Merging has lib/Transforms/MergeLoop.cpp and ModifyLoop.cpp.
--   Config      the configurations of include/Generator/EQueueGenerator.h: load_configuration is
--               loadConfiguration on the words of a file, equeue_generator is equeueGenerator up
--               to the choice of the generator.
--   Common      what the others share: tests on numbers, lists, maps, words and results.
-- The Examples files hold concrete inputs.
--
-- The model. The program is a record that is only read, with numbers for the source's pointers.
-- Every operation takes the runner and returns it changed; none is undefined behaviour, an
-- assertion that fails or a place that the source marks unreachable. Words are 64 bits and wrap;
-- an int that is returned through a word is read back with its sign. Quotients of float are taken
-- exactly. The maps that the source iterates over are lists, in the order in which it walks them,
-- and a new key stands last; the source's own order is that of a hash table.
--
-- Fuel. scan_control has as much as there are operations in the control queue, since each time
-- the scan starts again one has left, and poll has one more than that. The loop of
-- load_configuration has as many turns as there are words. simulate counts the rounds, and says
-- whether the simulation still runs after them. alloc_from counts the views that a buffer is
-- behind, model_op how deep generic operations are nested, and walk_regions how deep regions are;
-- these are parameters. walk takes one of its fuel for each loop that is removed, duplicate counts how
-- deep the definitions of a value are, and returned_value the launches around it; parse_arguments has
-- one round more than there is text left.
--
-- Assumptions. Loop bounds, sizes and volumes are not negative and fit in an int, and so do the
-- numbers of a configuration, where one that does not would set the stream's fail bit. Launchers are
-- created by the host, since a device that inserts into the table of launchers may move its own
-- entry. The maps that bounds of loops are given by have one operand and one result, in Removal.
--
-- What buildIdMap and buildExMap fill are the maps of Ids and of build_ex_map; run hands them to the
-- runner, which reads them as total functions.
--
-- The operations that a pass of Transforms rewrites are data of its own, with what the pass reads of
-- them. MLIR's parser is a record of its methods, which the parse functions take.
--
-- Not modelled. The text of the trace and the figures that are printed at the end are output
-- only. The other passes of lib/Transforms, the generators, include/EDSC, equeue-opt and the
-- examples act on MLIR itself.
pub mod Common
pub mod Device
pub mod Connection
pub mod Memory
pub mod Program
pub mod Launcher
pub mod Runner
pub mod Transforms
pub mod ScopedMap
pub mod Config
pub mod Names
pub mod Dialect
