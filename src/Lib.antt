-- ===== src/Lib.antt =====
-- sACN: a model of the core of the sACN library (ANSI E1.31, streaming of DMX over IP).
--
-- The DMX merger (src/sacn/dmx_merger.c, src/sacn/private/dmx_merger.h, include/sacn/dmx_merger.h)
-- merges the levels and priorities of several sources into one output: for each slot the source of the
-- highest priority wins, and the highest level among equal priorities. It keeps its outputs up to date
-- by small steps, one for each change of a source. `DmxMerger.Spec` says what the merge is, apart from
-- that; `DmxMerger.Invariant` that the outputs of a merger are the merge of its sources.
--   DmxMerger.State       the structs; a buffer is a function of the index
--   DmxMerger.Slots       the bodies of the merge loops, on one slot
--   DmxMerger.Outputs     the loops over the outputs
--   DmxMerger.Update      update_levels, update_pap, and what they call
--   DmxMerger.Priority    update_universe_priority, and the end of priorities and of sources
--   DmxMerger.Table       the tree of mergers and the functions that need its lock
--   DmxMerger.Api         the public functions, with their checks and the lock
-- A function that has the model's name is the one modelled; remove_pap and remove_source are
-- remove_sacn_dmx_merger_pap and remove_sacn_dmx_merger_source once their source is found.
--
-- The packets (src/sacn/pdu.c, src/sacn/private/pdu.h): `Pdu.Parse` and `Pdu.Pack` have the functions
-- and macros under their names, macros in lower case; `Pdu.Wire` has the bytes and what EtcPal packs.
--
-- Source loss (src/sacn/source_loss.c, and add_lost_source of src/sacn/mem/receiver/sources_lost.c):
-- `SourceLoss.State` has the termination sets, `Online` mark_sources_online, `Offline`
-- mark_sources_offline, and `Expired` get_expired_sources and clear_term_set_list.
--
-- The receiver (src/sacn/receiver_state.c, and of src/sacn/mem/receiver the files remote_source.c,
-- tracked_source.c, sampling_period_netint.c and status_lists.c) takes the packets that the parser
-- accepts, keeps the sources it hears, and gives the offline and online ones to the source loss:
--   Receiver.Remote       the handles of remote sources by CID, and back, with their counts
--   Receiver.State        the structs, with the tables that all receivers share (World)
--   Receiver.Track        the tracked sources, and the interfaces of the sampling periods
--   Receiver.Source       check_sequence, process_null_start_code, process_pap
--   Receiver.Packet       handle_sacn_data_packet, in its parts
--   Receiver.Status       check_source_timeouts and the status lists
--   Receiver.Tick         one round of process_receivers, for one receiver
--   Receiver.History      any sequence of packets and rounds
-- A write through the pointer to a tracked source is a store into the tree. What the receiver tells
-- the application is a value that the function gives back (Notified, Ticked).
--
-- The source detector (src/sacn/source_detector_state.c and src/sacn/mem/source_detector) puts the
-- pages of universe discovery together. `Detector.Sources` has the tree of sources and
-- find_or_add_source, `Detector.Page` process_universe_discovery_page in its parts, `Detector.Tick`
-- process_source_detector, and `Detector.Discovery` handle_sacn_universe_discovery_packet.
-- `Detector.Pages` has the pages of a whole list, one after the other.
--
-- The source (src/sacn/source_state.c), for one universe: `Source.State` has the struct, `Source.Send`
-- the sends and the sequence numbers, `Source.Transmit` transmit_levels_and_pap_when_needed and the
-- suppression, `Source.Terminate` the end of the universe and of its unicast destinations. What the
-- functions of src/sacn/sockets.c answer is the argument Network; the packets handed to them in a tick
-- are a list that the functions give back.
--
-- EtcPal is not part of the repository. Its red-black tree and handle manager are the records RbTree
-- and IntHandleManager of `EtcPal`, with their documented behaviour, its packing functions the record
-- Wire, its timers the record Timers; the modules below EtcPal and `Pdu.BigEndian` have instances, on
-- which the examples run. The outcomes of allocations and of the lock are arguments, and so is the time
-- of a call (in the source loss, what a timer says).
--
-- Choices. The default configuration: SACN_DYNAMIC_MEM, 512 slots, internal buffers for priorities and
-- owners. Tests that a pointer is not NULL are modelled where the public functions answer them, tests
-- of handles everywhere. A merger handle is the bit pattern of an int. Loops are structural: over the
-- slots of a range, or over the items of a tree. Only remove_current_sampling_period_netints has fuel,
-- one more than there are interfaces, which Receiver.Track.Current shows to be enough. Sources shared
-- by two trees are in one of them, and as keys in the other.
--
-- Not modelled: of the source, the walk over its universes, universe discovery and the setters; the
-- merge receiver; the threads, sockets and tables of receivers
-- (one receiver is modelled with what all share); the public functions of the receiver and of the
-- detector; the buffers and pools of the memory modules; logging and the C++ wrappers.
pub mod Prelude
pub mod EtcPal
pub mod DmxMerger
pub mod Pdu
pub mod SourceLoss
pub mod Receiver
pub mod Detector
pub mod Source
