-- ===== src/Lib.antt =====
-- FPGA ML, the middleware of this repository that runs OpenCL kernels on several FPGAs: an
-- application's OpenCL calls (il/ocl_api.cc) become commands of a queue, the dispatcher carries
-- them out in the event loop, data go through the unimem driver, and kernels are split into
-- ranges of workgroups that a scheduling algorithm gives to the schedulers of the islands.
--
-- Common holds the shared notation, lists over native numbers, machine words (`size_t` of 64
-- bits, `unsigned` of 32 bits, both wrapping), `int` as integers, whose overflow wraps where the
-- costs of AlgoSimple have it, strings as lists of characters, and the outcome of a call: a
-- value, an exception, a failed assertion, or undefined behaviour.
--
-- CircArray is the ring buffer of cpp/circ_array.hpp, which all queues use. NdRange is
-- WorkGroupRange and NDRange of cpp/ndrange.h and cpp/ndrange.cc. AlgoSimple is the search of
-- cpp/algo_simple.cc, and Route its route_ndrange. Slicing is cpp/algo_slicing.cc. Tracker is
-- cpp/tracker.cc with cpp/reconf_controller.cc. EvTimer is the timers of cpp/ev_timer.cc,
-- FreeSchedulers is cpp/free_sched_mgr.cc, and Scheduler the simulated scheduler of
-- cpp/scheduler_common.cc and cpp/scheduler_emu.cc. The end of a range, as the ndrange and the
-- objects see it, is in Scheduler/Drain and NdRange/Completion. World holds what the algorithms
-- reach through Global of cpp/centrum.h.
--
-- Bitstreams is cpp/bitstream_manager.cc with cpp/bitstream_check.h. Unimem is the driver's
-- client of cpp/unimem_utils.h and cpp/unimem_manager.cc. Objects is the reference-counted
-- objects of il/ocl_ds.h, CmdQueue is cpp/cmd_q.cc with ml_submit_cmd of cpp/fpgaml.cc,
-- Dispatcher is cpp/dispatcher.cc, with its own state and read_from_the_buffer in
-- Dispatcher/Reading, and TheBuffer is cpp/the_buffer.cc. Driver is the kernel module of
-- unimem/driver_buffer, which answers the client's messages. OclApi is il/ocl_api.cc: the state
-- that its functions share, platforms and contexts in OclApi itself, then Programs, Devices,
-- Enqueue (queues and kernels) and Buffers (memory objects and the calls that wait). Config is
-- cpp/wee_config.cc with the extractors and the schedulers of cpp/sched_config_common.cc, and
-- Global the construction of everything in cpp/centrum.cc. OclApi/Dispatching makes the
-- dispatcher the handler of a queue's watcher, for one command: the rest of the dispatcher's
-- state is given.
--
-- Undefined behaviour is the outcome `fault`, with these exceptions. submit_wgr of
-- cpp/scheduler_emu.cc has no return statement, and is taken to return to its callers, which use
-- no value. push_back of cpp/cmd_q.cc has none where it succeeds: whether its caller reads the
-- code of a released queue there is `unreturned`, a part of the state, and the theorems that need
-- it have a condition on it. An overflow of a cost in AlgoSimple wraps, and the theorem on costs
-- excludes it. m_end_time of a new scheduler, which is not set, is 0. The log line of
-- cpp/algo_simple.cc, which overruns its array with some 200 islands, is left out.
--
-- Functions keep the source's names, those of the OpenCL API without their `cl`; where two
-- classes have a method of one name, the class's word stands in front (queue_push_back,
-- buffer_push_back).
--
-- Code outside the repository is a parameter: libev's timers (LibEv, with the laws that a started
-- timer is active and a stopped one is not), the operating system's write, read and malloc
-- (System), what the driver uses of the kernel (Kernel), the XML parser with the files
-- (Documents), and the XML parser with the C library's conversions (ConfigXml). Samples has a
-- concrete value of each.
--
-- A pointer to an object is the object's number in a list. Loops over a counter are recursion on
-- the number of rounds that are left. The loops of pop_at and of remove_free_scheduler run on
-- fuel, one round for each element and one for the test that ends them, which the theorems on
-- pop_at and remove_free_scheduler show to be enough, as both return.
--
-- A call that waits for an event takes the steps of the other thread as a list, and says whether
-- it still waits after them. The lives of an ndrange and of a command queue are step relations,
-- in which the steps of the two threads come in any order.
--
-- Not modelled: logging, the registration of the driver with the kernel, the hardware scheduler
-- with the tools of the boards (cpp/reconfiguration.h), test programs, the libraries under aux
-- and aux-src, and threads below the level of a method that holds its lock throughout, which is
-- one step.
pub mod Common
pub mod CircArray
pub mod NdRange
pub mod AlgoSimple
pub mod EvTimer
pub mod FreeSchedulers
pub mod Scheduler
pub mod Tracker
pub mod World
pub mod Route
pub mod Objects
pub mod CmdQueue
pub mod Dispatcher
pub mod TheBuffer
pub mod Slicing
pub mod Bitstreams
pub mod Unimem
pub mod Driver
pub mod Config
pub mod Global
pub mod OclApi
mod Samples
