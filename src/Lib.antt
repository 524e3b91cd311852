-- ===== src/Lib.antt =====
-- A model of ntrt, a program that captures network packets on several listeners and keeps, for each
-- listener, features of the traffic in a sliding window of time, with theorems on its components.
--
-- The program. A state machine (src/ntrt.c, src/fsm/) sets the components up, starts and stops them.
-- The sniffer (src/cmp/cmp_sniffer.c) has a thread for each listener of a shared table (src/dmap/);
-- the thread hands each packet to the evaluator and to the group counter. The evaluator
-- (src/cmp/cmp_evaluator.c) asks each feature (src/lib/lib_features.c) of the listener what the
-- packet counts for, by a lazy dissection of the packet (src/etc/etc_sniffex.c), and sends a record
-- of the amounts to the accumulator (src/cmp/cmp_accumulator.c), which keeps the records of the
-- accumulation time in a ring puffer (src/lib/lib_puffers.c) with their sums. Records that leave the
-- window go back to a recycle puffer of the evaluator. The group counter
-- (src/cmp/cmp_groupcounter.c, src/lib/lib_groupcounters.c) counts the flows that are alive. The
-- recorder (src/cmp/cmp_recorder.c) asks both for their numbers, at intervals, and prints a row of
-- them for each listener. The listeners come from a configuration (src/sys/sys_confs.c).
--
-- The files, with the code that they model:
--   Puffer      src/lib/lib_puffers.c: datapuffer_ctor, _write, _read, _clear and the tests; the
--               cells are a list, the pointers are indices. Puffer.Holds is the queue it stands for.
--   Sniff       src/etc/etc_sniffex.c: sniff_is_ip_packet, _is_udp_packet, _is_tcp_packet,
--               sniff_get_payload and sniff_rtp_packet, on the memo of sniff_t; the packet is a
--               function from offsets to bytes. Sniff.Packet reads the bytes without a memo.
--   Feature     src/lib/lib_features.c: the evaluator of each of the 27 features that features_load
--               (src/sys/sys_confs.c) installs. Feature.Spec is what they mean on bytes.
--   Dmap        src/dmap/dmap.c: rows, iteration, insertion, removal, generic in the item.
--   Clock       src/inc/inc_mtime.c. Record, Listener: the structs of src/lib/lib_descs.h.
--   Slist       src/lib/lib_funcs.c: slist_append, slist_prepend and slist_cpy.
--   Accumulator src/cmp/cmp_accumulator.c: the window of one listener, and in Accumulator.Component
--               _accumulator_start, _stop, _restart, _record_receiver and _features_requester.
--   Evaluator   src/cmp/cmp_evaluator.c, and CMP_DEF_RECPUFFER of src/cmp/cmp_predefs.h.
--   Pipeline    the loop of _thr_listener_proc_main in src/cmp/cmp_sniffer.c, and the connections of
--               src/fsm/fsm_cmpactions.c: a packet through evaluator, accumulator and recycle
--               puffer, and then to the group counter.
--   Sliding     src/lib/lib_puffers.c: slidingwindow_t with its plugins and storage, generic in the
--               data and in the memory that the plugins change; in Sliding.Int32 the storage of
--               numbers, and the summer of src/lib/lib_swplugins.c.
--   Bintree     src/lib/lib_bintree.c: the search tree with its counts and its pointers to the least
--               and the greatest node, and in Bintree.Change search, insertion and removal.
--   Cmdexecutor src/cmp/cmp_cmdexecutor.c: the interpreter of the command file. Its loop has as fuel
--               the number of the lines and one, as each turn reads a line or finds the end.
--   Group       src/lib/lib_groupcounters.c, and in Group.Component src/cmp/cmp_groupcounter.c.
--   Machine     src/fsm/ and the main loop of src/ntrt.c: states, events, and the actions in order.
--   Recorder    src/cmp/cmp_recorder.c: the record that the relaying thread fills for each listener,
--               and in Recorder.Output the row that is printed of it, the files, and the turns of
--               the two threads that share it.
--   Round       the same thread across the components: a listener's row from the accumulator's and
--               the group counter's answers.
--   Conf        src/sys/sys_confs.c and src/dmap/dmap_sel.c: the resolution of feature identifiers,
--               and in Conf.Section the listener that a section describes.
-- Prelude holds what the components share: words and their bytes, integers, lists. A module Sample
-- has test data, a module Tests the runs of a component on it; the other child modules have proofs.
--
-- Conventions. Integers are natural numbers with the wrap-around of their width written out. A
-- definition that can read NULL or index out of range gives an option, and `none` is that fault.
-- A clock is the function of its successive readings. Loops are structural recursions on the list or
-- the count that they run over; those of the source that run until a condition holds take as fuel
-- the length of the table, of the puffer or of the file, and the theorems say that they end. Each
-- entry point of a component is one step, as its mutex makes it.
--
-- Parameters: the addresses of new tree nodes, what fopen(3) and sscanf(3) answer, what the ini
-- parser finds under a key, and the clock.
--
-- A packet is a function from offsets to bytes: the code does not look at the captured length, and a
-- read behind it gives what the memory holds there, whose bounds are not modelled.
--
-- Not modelled: threads, mutexes and memory management; libpcap; messages;
-- the vector, heap and queue, which no component uses, and the plugins for extremes and
-- percentiles; the copies of argtable2 and iniparser.
pub mod Prelude
pub mod Puffer
pub mod Sniff
pub mod Feature
pub mod Dmap
pub mod Clock
pub mod Record
pub mod Accumulator
pub mod Evaluator
pub mod Pipeline
pub mod Machine
pub mod Slist
pub mod Group
pub mod Listener
pub mod Recorder
pub mod Conf
pub mod Round
pub mod Sliding
pub mod Bintree
pub mod Cmdexecutor
